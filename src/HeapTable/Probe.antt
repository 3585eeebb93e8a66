-- ===== src/HeapTable/Probe.antt =====
-- The search of table_find.
use opendylan.Prelude.{
  ℕ, zero, suc, ◌+◌, ◌*◌, ◌%◌, ◌<◌, ◌≡◌, ◌≢◌, refl, sym, ◌∙◌, ap, Bool, true, false, Option, none,
  some, arith, inl, inr, Bool-cases, ==_iff, ◌==◌,
}
use native.Mathlib.Decide.{ℕ_discrete}
use native.Mathlib.Nat.{mod-lt, mod-add-mod, add-mul-mod_self_left, mod-eq_of_lt}
use opendylan.HeapTable.{step, probe}

-- Where the search ends with an entry, the test holds.
pub probe-stop :
    (fuel length : ℕ) (stop : ℕ → Bool) (hash i b : ℕ)
    → probe fuel length stop hash i ≡ some (some b)
    → stop b ≡ true
unfolding probe
probe-stop zero length stop hash i b h = absurd (ground arith)
probe-stop (suc fuel) length stop hash i b h =
    let next = (i + step hash) % length in
    let ih = probe-stop fuel length stop hash next b in ground (arith, ih)

-- Another test that holds at the entry found, and fails wherever else the first one failed, ends
-- the search at the same entry.
pub probe-same :
    (fuel length : ℕ) (stop stop' : ℕ → Bool) (hash i b : ℕ)
    → ((a : ℕ) → a ≢ b → stop a ≡ false → stop' a ≡ false)
    → stop' b ≡ true
    → probe fuel length stop hash i ≡ some (some b)
    → probe fuel length stop' hash i ≡ some (some b)
unfolding probe
probe-same zero length stop stop' hash i b other here h = absurd (ground arith)
probe-same (suc fuel) length stop stop' hash i b other here h =
    let next = (i + step hash) % length in
    let ih = probe-same fuel length stop stop' hash next b other here in
    elim (Bool-cases (stop i)) [
      | inl e ↦ ground (arith, here)
      | inr e ↦ elim (ℕ_discrete i b) [
        | yes p ↦ ground (arith, here)
        | no ne ↦ ground (arith, other i ne e, ih)
      ]
    ]

pub probe-lt :
    (fuel length : ℕ) (stop : ℕ → Bool) (hash i b : ℕ)
    → i < length
    → probe fuel length stop hash i ≡ some (some b)
    → b < length
unfolding probe
probe-lt zero length stop hash i b lt h = absurd (ground arith)
probe-lt (suc fuel) length stop hash i b lt h =
    let next = (i + step hash) % length in
    let ih =
      probe-lt fuel length stop hash next b (mod-lt (i + step hash) {m = length} (omega arith)) in
    ground (arith, ih)

round-mod : (h j s n : ℕ) → ((h + j * s) % n + s) % n ≡ (h + suc j * s) % n
round-mod h j s n = mod-add-mod (h + j * s) n s ∙ ap (λ (x : ℕ). x % n) (omega arith)

-- The search that starts at the hash comes back to it after `length` rounds, if not before.
probe_ends :
    (fuel length : ℕ) (stop : ℕ → Bool) (hash i j : ℕ)
    → hash < length
    → j + suc fuel ≡ length
    → i ≡ (hash + j * step hash) % length
    → (r : Option ℕ) × (probe (suc fuel) length stop hash i ≡ some r)
unfolding probe
probe_ends zero length stop hash i j lt e at =
    let around : suc j ≡ length = omega arith in
    let back : (i + step hash) % length ≡ hash =
      ap (λ (x : ℕ). (x + step hash) % length) at
      ∙ round-mod hash j (step hash) length
      ∙ ap (λ (x : ℕ). (hash + x * step hash) % length) around
      ∙ add-mul-mod_self_left hash length (step hash)
      ∙ mod-eq_of_lt lt in
    elim (Bool-cases (stop i)) [
      | inl e ↦ (some i, rw e refl)
      | inr e ↦ (none, rw (e, (==_iff ((i + step hash) % length) hash).1 back) refl)
    ]
probe_ends (suc fuel) length stop hash i j lt e at =
    let next = (i + step hash) % length in
    let forth : next ≡ (hash + suc j * step hash) % length =
      ap (λ (x : ℕ). (x + step hash) % length) at ∙ round-mod hash j (step hash) length in
    let (r, ih) = probe_ends fuel length stop hash next (suc j) lt (omega arith) forth in
    elim (Bool-cases (stop i)) [
      | inl e ↦ (some i, rw e refl)
      | inr e ↦ elim (Bool-cases (next == hash)) [
        | inl e' ↦ (none, rw (e, e') refl)
        | inr e' ↦ (r, rw (e, e') ih)
      ]
    ]

-- The search of table_find ends within `length` rounds.
pub probe_total :
    (length : ℕ) (stop : ℕ → Bool) (hash : ℕ)
    → hash < length
    → (r : Option ℕ) × (probe length length stop hash hash ≡ some r)
probe_total zero stop hash lt = absurd (omega arith)
probe_total (suc n) stop hash lt =
    probe_ends n (suc n) stop hash hash 0 lt (omega arith)
      (sym (mod-eq_of_lt lt) ∙ ap (λ (x : ℕ). x % suc n) (omega arith))
