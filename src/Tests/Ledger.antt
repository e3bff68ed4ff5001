-- ===== src/Tests/Ledger.antt =====
-- Examples for the ledger (resource.rs).
use tabulark.Base.{◌+◌, ◌≤◌, ◌<◌, ◌≡◌, ◌⊎◌, refl, arith, List, [], ◌∷◌, some}
use tabulark.Error.{
  ok, err, resource_limit, code_of, TabularkError, new, with_detail, number, string,
}
use tabulark.State.{done, state_of, result_of, monad}
use tabulark.Resource.{
  ResourceLedger, persistent, ingress_output, native_cache, no_charges, open_ledger, admit, replace,
}
use tabulark.Resource.Invariant.{IsWithin, owned}
use tabulark.Resource.Admission.{charged_with, reclaimed, admit_exact}
use tabulark.Resource.Replace.{Call, admits, releases, replaces, run, run-IsWithin}

abbrev empty : ResourceLedger
empty = record {
  budget_bytes = 100;
  charged = no_charges;
  high_water_bytes = 0;
  reclaimed_native_cache_bytes = 0;
  wasm_memory_pages = 0;
  wasm_memory_high_water_pages = 0;
}

empty_opened : open_ledger 100 ≡ ok empty
unfolding open_ledger
empty_opened = refl

-- Two admissions, one of them too large, a replacement and a release.
abbrev calls : List Call
calls =
    admits persistent 60
    ∷ admits native_cache 50
    ∷ replaces persistent 30
    ∷ releases persistent 10
    ∷ []

run-IsWithin_example : IsWithin (run empty calls)
run-IsWithin_example = run-IsWithin 100 empty calls (omega arith) empty_opened

-- A ledger with a cache that can make room.
abbrev cached : ResourceLedger
cached = record empty {
  charged = record no_charges { persistent_bytes = 40; native_cache_bytes = 30 };
  high_water_bytes = 70;
}

cached-IsWithin : IsWithin cached
cached-IsWithin = ground arith

admit_exact_example :
    ((owned cached + 50 ≤ 100)
      × (admit ingress_output 50 cached ≡ done 0 (charged_with ingress_output 50 cached)))
    ⊎ ((100 < owned cached + 50)
        × (owned (reclaimed cached) + 50 ≤ 100)
        × (admit ingress_output 50 cached
            ≡ done 30 (charged_with ingress_output 50 (reclaimed cached))))
    ⊎ ((100 < owned (reclaimed cached) + 50)
        × (state_of (admit ingress_output 50 cached) ≡ reclaimed cached)
        × (code_of (result_of (admit ingress_output 50 cached)) ≡ some resource_limit))
admit_exact_example = admit_exact ingress_output 50 cached refl cached-IsWithin (omega arith)

-- A replacement by more than the budget: the old charge is released, which leaves the cache to be
-- reclaimed, and the new one is refused.
abbrev refusal : TabularkError
refusal =
    with_detail
      (with_detail
        (with_detail
          (with_detail (new resource_limit "adapter runtime exceeds its configured resource budget")
            "resource" (string "persistent"))
          "requiredBytes" (number 200))
        "availableBytes" (number 100))
      "budgetBytes" (number 100)

refused : result_of (replace persistent 200 cached) ≡ err refusal
unfolding replace monad
refused = refl
