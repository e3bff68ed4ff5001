-- ===== src/Resource.antt =====
-- src/resource.rs: the ledger of bytes that an adapter runtime owns. The array of charges is a
-- record with one field for each category.
pub mod Invariant
pub mod Admission
pub mod Replace
use tabulark.Base.{
  ℕ, ◌+◌, ◌-◌, Bool, true, false, Option, none, some, max, leb, ◌==◌, if◌then◌else◌, u64_max,
  checked_add, checked_sub,
}
use tabulark.Error.{
  TabularkError, Result, ok, err, new, with_detail, number, string, invalid_argument,
  runtime_failure, resource_limit, ok_or,
}
use tabulark.Error
use tabulark.State.{
  M, Outcome, done, fail, pure, throw, ◌>>=◌, ◌>>◌, get, put, modify, lift, some_or, monad,
}

pub data Category : Type 0 where
  persistent active_operation ingress_output native_cache caller_owned : Category

pub record Charged : Type 0 where
  pub persistent_bytes : ℕ
  pub active_operation_bytes : ℕ
  pub ingress_output_bytes : ℕ
  pub native_cache_bytes : ℕ
  pub caller_owned_bytes : ℕ

-- `charged[category.index()]`
abbrev pub charge : Charged → Category → ℕ
charge c persistent = c.persistent_bytes
charge c active_operation = c.active_operation_bytes
charge c ingress_output = c.ingress_output_bytes
charge c native_cache = c.native_cache_bytes
charge c caller_owned = c.caller_owned_bytes

-- `charged[category.index()] = bytes`
abbrev pub set_charge : Charged → Category → ℕ → Charged
set_charge c persistent n = record c { persistent_bytes = n }
set_charge c active_operation n = record c { active_operation_bytes = n }
set_charge c ingress_output n = record c { ingress_output_bytes = n }
set_charge c native_cache n = record c { native_cache_bytes = n }
set_charge c caller_owned n = record c { caller_owned_bytes = n }

abbrev pub no_charges : Charged
no_charges = record {
  persistent_bytes = 0;
  active_operation_bytes = 0;
  ingress_output_bytes = 0;
  native_cache_bytes = 0;
  caller_owned_bytes = 0;
}

name : Category → Error.Detail
name persistent = string "persistent"
name active_operation = string "active-operation"
name ingress_output = string "ingress-output"
name native_cache = string "native-cache"
name caller_owned = string "caller-owned"

abbrev pub is_runtime_owned : Category → Bool
is_runtime_owned caller_owned = false
is_runtime_owned _ = true

pub record ResourceLedger : Type 0 where
  pub budget_bytes : ℕ
  pub charged : Charged
  pub high_water_bytes : ℕ
  pub reclaimed_native_cache_bytes : ℕ
  pub wasm_memory_pages : ℕ
  pub wasm_memory_high_water_pages : ℕ

-- `ResourceLedger::new`
unfoldable pub open_ledger : ℕ → Result ResourceLedger
open_ledger budget =
    if budget == 0
    then err (new invalid_argument "resource ledger budget must be greater than zero")
    else ok (record {
      budget_bytes = budget;
      charged = no_charges;
      high_water_bytes = 0;
      reclaimed_native_cache_bytes = 0;
      wasm_memory_pages = 0;
      wasm_memory_high_water_pages = 0;
    })

abbrev owned_overflow : TabularkError
owned_overflow = new resource_limit "resource ledger runtime-owned byte count overflows"

abbrev checked_total : Option ℕ → ℕ → Option ℕ
checked_total none b = none
checked_total (some a) b = checked_add u64_max a b

-- `runtime_owned_bytes`: the fold over the first four charges.
unfoldable pub runtime_owned_bytes : ResourceLedger → Result ℕ
runtime_owned_bytes l =
    ok_or
      (checked_total
        (checked_total
          (checked_total (checked_add u64_max 0 l.charged.persistent_bytes)
            l.charged.active_operation_bytes)
          l.charged.ingress_output_bytes)
        l.charged.native_cache_bytes)
      owned_overflow

abbrev observe_high_water : M ResourceLedger (Unit {0})
observe_high_water = do
  l ← get
  used ← lift (runtime_owned_bytes l)
  put (record l { high_water_bytes = max l.high_water_bytes used })

unfoldable pub add_unbounded : Category → ℕ → M ResourceLedger (Unit {0})
unfolding name runtime_owned_bytes monad
add_unbounded category bytes = do
  l ← get
  total ← some_or (checked_add u64_max (charge l.charged category) bytes) (
      with_detail (new resource_limit "resource ledger category byte count overflows") "resource"
        (name category))
  put (record l { charged = set_charge l.charged category total })
  if is_runtime_owned category then observe_high_water else pure tt

abbrev fits : Option ℕ → ℕ → Bool
fits none budget = false
fits (some required) budget = leb required budget

unfoldable pub can_admit : ℕ → ResourceLedger → Result Bool
unfolding runtime_owned_bytes
can_admit bytes l =
    Error.◌>>=◌ (runtime_owned_bytes l)
      λ used. ok (fits (checked_add u64_max used bytes) l.budget_bytes)

unfoldable pub limit_error : Category → ℕ → ResourceLedger → Result TabularkError
unfolding name runtime_owned_bytes
limit_error category bytes l = Error.◌>>=◌ (runtime_owned_bytes l) λ used.
    Error.◌>>=◌
      (ok_or (checked_add u64_max used bytes)
        (new resource_limit "resource ledger admission byte count overflows"))
      λ required. ok (
        with_detail
          (with_detail
            (with_detail
              (with_detail
                (new resource_limit "adapter runtime exceeds its configured resource budget")
                "resource" (name category))
              "requiredBytes" (number required))
            "availableBytes" (number (l.budget_bytes - used)))
          "budgetBytes" (number l.budget_bytes))

unfoldable pub clear_native_cache : M ResourceLedger ℕ
unfolding monad
clear_native_cache = do
  l ← get
  let reclaimed = l.charged.native_cache_bytes
  put (record l { charged = set_charge l.charged native_cache 0 })
  total ←
      some_or (checked_add u64_max l.reclaimed_native_cache_bytes reclaimed)
        (new resource_limit "resource ledger reclaimed-byte counter overflows")
  modify (λ m. record m { reclaimed_native_cache_bytes = total })
  pure reclaimed

-- The rest of `admit` after the cache was cleared.
abbrev retry : Category → ℕ → ℕ → M ResourceLedger ℕ
retry category bytes reclaimed = do
  l ← get
  fitting ← lift (can_admit bytes l)
  if fitting
      then (add_unbounded category bytes >> pure reclaimed)
      else (lift (limit_error category bytes l) >>= throw)

-- Admission of bytes that count against the budget.
abbrev admit_owned : Category → ℕ → M ResourceLedger ℕ
admit_owned category bytes = do
  l ← get
  fitting ← lift (can_admit bytes l)
  if fitting
      then (add_unbounded category bytes >> pure 0)
      else (clear_native_cache >>= retry category bytes)

unfoldable pub admit : Category → ℕ → M ResourceLedger ℕ
unfolding add_unbounded can_admit clear_native_cache limit_error monad
admit category bytes =
    if is_runtime_owned category
    then admit_owned category bytes
    else (add_unbounded category bytes >> pure 0)

unfoldable pub release : Category → ℕ → M ResourceLedger (Unit {0})
unfolding name monad
release category bytes = do
  l ← get
  left ← some_or (checked_sub (charge l.charged category) bytes) (
      with_detail
        (with_detail
          (with_detail
            (new runtime_failure "resource ledger release exceeds the charged byte count")
            "resource" (name category))
          "chargedBytes" (number (charge l.charged category)))
        "releaseBytes" (number bytes))
  put (record l { charged = set_charge l.charged category left })

abbrev restore : Category → ℕ → Outcome ResourceLedger ℕ → Outcome ResourceLedger ℕ
restore category previous (done reclaimed l) = done reclaimed l
restore category previous (fail e l) =
    fail e (record l { charged = set_charge l.charged category previous })

unfoldable pub replace : Category → ℕ → M ResourceLedger ℕ
unfolding admit
replace category bytes l =
    let previous = charge l.charged category in
    if previous == bytes
    then done 0 l
    else restore category previous
        (admit category bytes (record l { charged = set_charge l.charged category 0 }))

unfoldable pub release_all : ResourceLedger → ResourceLedger
release_all l = record l { charged = no_charges }

unfoldable pub observe_wasm_memory_pages : ℕ → ResourceLedger → ResourceLedger
observe_wasm_memory_pages pages l = record l {
  wasm_memory_pages = pages;
  wasm_memory_high_water_pages = max l.wasm_memory_high_water_pages pages;
}

pub record ResourceSnapshot : Type 0 where
  pub budget_bytes : ℕ
  pub runtime_owned_bytes : ℕ
  pub high_water_bytes : ℕ
  pub charged : Charged
  pub reclaimed_native_cache_bytes : ℕ
  pub wasm_memory_pages : ℕ
  pub wasm_memory_high_water_pages : ℕ

abbrev or_max : Result ℕ → ℕ
or_max (ok n) = n
or_max (err e) = u64_max

unfoldable pub snapshot : ResourceLedger → ResourceSnapshot
snapshot l = record {
  budget_bytes = l.budget_bytes;
  runtime_owned_bytes = or_max (runtime_owned_bytes l);
  high_water_bytes = l.high_water_bytes;
  charged = l.charged;
  reclaimed_native_cache_bytes = l.reclaimed_native_cache_bytes;
  wasm_memory_pages = l.wasm_memory_pages;
  wasm_memory_high_water_pages = l.wasm_memory_high_water_pages;
}
