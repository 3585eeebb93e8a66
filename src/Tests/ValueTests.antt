-- ===== src/Tests/ValueTests.antt =====
-- Three values put aside and brought back.
use opendylan.Prelude.{ℕ, ◌≡◌, refl, List, [], ◌∷◌, ◌==◌, if◌then◌else◌}
use opendylan.Values.{Mv, mv_spill_into, mv_unspill, mv3}

abbrev values : Mv
values = record { count = 3; value = λ i. if i == 1 then 21 else 22 }

abbrev blank : Mv
blank = record { count = 0; value = λ i. 0 }

abbrev list_of : Mv → List ℕ
list_of v = v.count ∷ v.value 0 ∷ v.value 1 ∷ v.value 2 ∷ []

brought_back :
    list_of (mv_unspill 1 (mv_spill_into 20 blank values).0 blank).1 ≡ 3 ∷ 20 ∷ 21 ∷ 22 ∷ []
unfolding mv_unspill mv_spill_into
brought_back = refl

made : list_of (mv3 20 21 22 blank).1 ≡ 3 ∷ 20 ∷ 21 ∷ 22 ∷ []
unfolding mv3
made = refl
