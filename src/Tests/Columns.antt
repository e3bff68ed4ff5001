-- ===== src/Tests/Columns.antt =====
-- Examples for columns of strings (csv.rs, model.rs).
use tabulark.Base.{
  ℕ, ◌+◌, ◌*◌, ◌≤◌, ◌<◌, ◌≡◌, ◌⊎◌, refl, arith, List, [], ◌∷◌, Option, none, some, length,
  get_elem?, All,
}
use tabulark.Error.{ok, resource_limit, code_of}
use tabulark.State.{done, state_of, result_of, monad}
use tabulark.Text.{Bytes, codes}
use tabulark.Utf8.{is_valid, is_valid_from, lead}
use tabulark.Model.Strings.{StringColumnBatch, value}
use tabulark.Csv.Builder.{
  StringColumnBuilder, new_builder, push, finish, write, value_length, bitmap_cost,
}
use tabulark.Csv.Builder.Values.{pushed, push_exact}
use tabulark.Csv.Builder.Values.RoundTrip.{IsText, push_all, value-push_all}

abbrev values : List (Option Bytes)
values = some (codes "one") ∷ none ∷ some [] ∷ some (codes "three") ∷ []

abbrev built : StringColumnBuilder
built = record {
  column_id = codes "c0";
  data_bytes = codes "onethree";
  offsets = 0 ∷ 3 ∷ 3 ∷ 3 ∷ 8 ∷ [];
  validity = 13 ∷ [];
  values = 4;
}

pushed_values : push_all 1000 values (new_builder (codes "c0"), 4) ≡ done tt (built, 29)
unfolding push_all push write monad
pushed_values = refl

values-IsText : All IsText values
unfolding is_valid is_valid_from lead
values-IsText = (refl, (tt, (refl, (refl, tt))))

value-push_all_example :
    (c : StringColumnBatch) × (finish built ≡ ok c)
    × ((i : ℕ) → value c i ≡ get_elem? values i)
    × (29 ≡ 4 + length c.data_bytes + 4 * length values + length c.validity)
value-push_all_example =
    value-push_all (codes "c0") values 1000 4 29 built values-IsText pushed_values

push_exact_example :
    ((29 + value_length (some (codes "four")) + 4 + bitmap_cost built.values ≤ 32)
      × (push (some (codes "four")) 32 (built, 29)
          ≡ done tt (
            pushed (some (codes "four")) built,
            29 + value_length (some (codes "four")) + 4 + bitmap_cost built.values,
          )))
    ⊎ ((32 < 29 + value_length (some (codes "four")) + 4 + bitmap_cost built.values)
        × (state_of (push (some (codes "four")) 32 (built, 29)) ≡ (built, 29))
        × (code_of (result_of (push (some (codes "four")) 32 (built, 29))) ≡ some resource_limit))
push_exact_example =
    push_exact (some (codes "four")) 32 29 built (omega arith) (omega arith) (omega arith)
