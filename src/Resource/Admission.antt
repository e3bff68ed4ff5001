-- ===== src/Resource/Admission.antt =====
-- What `admit`, `release` and `replace` do on each branch (resource.rs).
use tabulark.Base.{ℕ, ◌+◌, ◌≤◌, ◌<◌, ◌≡◌, ◌⊎◌, inl, inr, true, arith, u64_max, some, max}
use native.Mathlib.Decide.{dec_le}
use tabulark.Error.{new, with_detail, ok, resource_limit, code_of}
use tabulark.State.{state_of, result_of, done}
use tabulark.Resource.{
  ResourceLedger, Category, persistent, active_operation, ingress_output, native_cache,
  caller_owned, charge, set_charge, is_runtime_owned, admit, release,
}
use tabulark.Resource.Invariant.{owned, IsWithin}

-- The ledger after `n` more bytes were charged to `c`.
abbrev pub charged_with : Category → ℕ → ResourceLedger → ResourceLedger
charged_with c n l = record l {
  charged = set_charge l.charged c (charge l.charged c + n);
  high_water_bytes = max l.high_water_bytes (owned l + n);
}

-- The ledger after the cache was reclaimed.
abbrev pub reclaimed : ResourceLedger → ResourceLedger
reclaimed l = record l {
  charged = set_charge l.charged native_cache 0;
  reclaimed_native_cache_bytes = l.reclaimed_native_cache_bytes + l.charged.native_cache_bytes;
}

pub admit_fits :
    (c : Category) (n : ℕ) (l : ResourceLedger)
    → is_runtime_owned c ≡ true
    → IsWithin l
    → owned l + n ≤ l.budget_bytes
    → admit c n l ≡ done 0 (charged_with c n l)
unfolding admit
admit_fits persistent n l o w h = ground arith
admit_fits active_operation n l o w h = ground arith
admit_fits ingress_output n l o w h = ground arith
admit_fits native_cache n l o w h = ground arith
admit_fits caller_owned n l o w h = cc

-- The counter of reclaimed bytes has room for what is cached now.
abbrev pub HasRoom : ResourceLedger → Type 0
HasRoom l = l.reclaimed_native_cache_bytes + l.charged.native_cache_bytes ≤ u64_max

pub admit_reclaims :
    (c : Category) (n : ℕ) (l : ResourceLedger)
    → is_runtime_owned c ≡ true
    → IsWithin l
    → HasRoom l
    → l.budget_bytes < owned l + n
    → owned (reclaimed l) + n ≤ l.budget_bytes
    → admit c n l ≡ done l.charged.native_cache_bytes (charged_with c n (reclaimed l))
unfolding admit
admit_reclaims persistent n l o w r f h = ground arith
admit_reclaims active_operation n l o w r f h = ground arith
admit_reclaims ingress_output n l o w r f h = ground arith
admit_reclaims native_cache n l o w r f h = ground arith
admit_reclaims caller_owned n l o w r f h = cc

pub admit_refuses :
    (c : Category) (n : ℕ) (l : ResourceLedger)
    → is_runtime_owned c ≡ true
    → IsWithin l
    → HasRoom l
    → l.budget_bytes < owned (reclaimed l) + n
    → (state_of (admit c n l) ≡ reclaimed l)
      × (code_of (result_of (admit c n l)) ≡ some resource_limit)
unfolding admit new with_detail
admit_refuses persistent n l o w r h = ground arith
admit_refuses active_operation n l o w r h = ground arith
admit_refuses ingress_output n l o w r h = ground arith
admit_refuses native_cache n l o w r h = ground arith
admit_refuses caller_owned n l o w r h = cc

-- On a ledger within its budget, whose counter of reclaimed bytes has room, bytes of a category that
-- the runtime owns are charged as they are if they fit, after the cache was reclaimed if they fit
-- then, and otherwise are refused by the resource limit, which leaves the cache reclaimed too.
pub admit_exact :
    (c : Category) (n : ℕ) (l : ResourceLedger)
    → is_runtime_owned c ≡ true
    → IsWithin l
    → HasRoom l
    → ((owned l + n ≤ l.budget_bytes) × (admit c n l ≡ done 0 (charged_with c n l)))
      ⊎ ((l.budget_bytes < owned l + n)
          × (owned (reclaimed l) + n ≤ l.budget_bytes)
          × (admit c n l ≡ done l.charged.native_cache_bytes (charged_with c n (reclaimed l))))
      ⊎ ((l.budget_bytes < owned (reclaimed l) + n)
          × (state_of (admit c n l) ≡ reclaimed l)
          × (code_of (result_of (admit c n l)) ≡ some resource_limit))
admit_exact c n l o w r = elim (dec_le (owned l + n) l.budget_bytes) [
  | yes h ↦ inl (h, admit_fits c n l o w h)
  | no h ↦ elim (dec_le (owned (reclaimed l) + n) l.budget_bytes) [
    | yes k ↦ inr (inl (omega arith, k, admit_reclaims c n l o w r (omega arith) k))
    | no k ↦ let (a, b) = admit_refuses c n l o w r (omega arith) in inr (inr (omega arith, a, b))
  ]
]

-- On a ledger within its budget, bytes of a category that the runtime owns and that fit can be
-- admitted and then released, which gives back every charge.
release-admit :
    (c : Category) (n : ℕ) (l : ResourceLedger)
    → is_runtime_owned c ≡ true
    → IsWithin l
    → owned l + n ≤ l.budget_bytes
    → (result_of (release c n (state_of (admit c n l))) ≡ ok tt)
      × ((state_of (release c n (state_of (admit c n l)))).charged ≡ l.charged)
unfolding release
release-admit persistent n l o w h =
    rw (admit_fits persistent n l o w h) (ground arith, ground arith)
release-admit active_operation n l o w h =
    rw (admit_fits active_operation n l o w h) (ground arith, ground arith)
release-admit ingress_output n l o w h =
    rw (admit_fits ingress_output n l o w h) (ground arith, ground arith)
release-admit native_cache n l o w h =
    rw (admit_fits native_cache n l o w h) (ground arith, ground arith)
release-admit caller_owned n l o w h = cc
