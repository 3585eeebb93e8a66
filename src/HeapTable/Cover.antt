-- ===== src/HeapTable/Cover.antt =====
-- The probe of table_find meets every entry: its step is odd, and the length a power of two.
use opendylan.Prelude.{
  ℕ, zero, suc, ◌+◌, ◌-◌, ◌*◌, ◌/◌, ◌%◌, ◌^◌, ◌≤◌, ◌<◌, ◌≡◌, sym, ◌∙◌, ap, subst, Bool, ltb, ltb→lt,
  false, none, some, arith, inl, inr, Bool-cases, ==_iff, ◌==◌,
}
use native.Mathlib.Nat.{mod-lt, mod-add-mod, add-mul-mod_self_right, mod-eq_of_lt}
use opendylan.HeapTable.{step, probe}

pub pow_suc : (n : ℕ) → 2 ^ suc n ≡ 2 * 2 ^ n
pow_suc n = omega arith

-- An odd number has an inverse modulo a power of two.
inverse : (n s : ℕ) → s % 2 ≡ 1 → (u : ℕ) × (m : ℕ) × (s * u ≡ 1 + m * 2 ^ n)
inverse zero s odd = (1, s - 1, omega arith)
inverse (suc n) s odd =
    let (u, m, e) = inverse n s odd in
    elim (Bool-cases (m % 2 == 0)) [
      | inl even ↦
          let h : m ≡ 2 * (m / 2) = ground (arith, even) in
          (
            u,
            m / 2,
            omega (arith, e, ap (λ (t : ℕ). t * 2 ^ n) h, ap (λ (t : ℕ). m / 2 * t) (pow_suc n)),
          )
      | inr uneven ↦
          let h : m + s ≡ 2 * ((m + s) / 2) = ground (arith, uneven) in
          (
            u + 2 ^ n,
            (m + s) / 2,
            omega (
              arith,
              e,
              ap (λ (t : ℕ). t * 2 ^ n) h,
              ap (λ (t : ℕ). (m + s) / 2 * t) (pow_suc n),
            ),
          )
    ]

sub_back : (k e : ℕ) → e ≤ k → k ≡ e + (k - e)
sub_back k e h = omega arith

-- In a table of length 2 ^ n, whose probe has the step `s`.
module _ (n s : ℕ) (odd : s % 2 ≡ 1) where
  abbrev len : ℕ
  len = 2 ^ n

  round-eq : (x u m : ℕ) → s * u ≡ 1 + m * len → x * u * s ≡ x + x * m * len
  round-eq x u m e = omega (arith, ap (λ (t : ℕ). x * t) e)

  div-mod : (a b : ℕ) → a ≡ a / b * b + a % b
  div-mod a b = grind arith

  reduce : (h y : ℕ) → (h + y % len * s) % len ≡ (h + y * s) % len
  reduce h y =
      let q = y / len in
      let split : h + y * s ≡ h + y % len * s + q * s * len =
        omega (arith, ap (λ (t : ℕ). t * s) (div-mod y len)) in
      sym (ap (λ (t : ℕ). t % len) split ∙ add-mul-mod_self_right (h + y % len * s) (q * s) len)

  -- Every entry is met in some round.
  meets : (h b : ℕ) → h < len → b < len → (j : ℕ) × (j < len) × ((h + j * s) % len ≡ b)
  meets h b hl bl =
      let (u, m, e) = inverse n s odd in
      let x = b + len - h in
      let around : h + x * u * s ≡ b + (1 + x * m) * len = omega (arith, round-eq x u m e) in
      (
        x * u % len,
        mod-lt (x * u) {m = len} (omega arith),
        reduce h (x * u)
            ∙ ap (λ (t : ℕ). t % len) around
            ∙ add-mul-mod_self_right b (1 + x * m) len
            ∙ mod-eq_of_lt bl,
      )

-- A search from the hash `h` that finds nothing comes back to `h` after some rounds, in none of
-- which the test held.
module _ (length : ℕ) (stop : ℕ → Bool) (h : ℕ) where
  abbrev place : ℕ → ℕ
  place j = (h + j * step h) % length

  place-next : (j : ℕ) → (place j + step h) % length ≡ place (suc j)
  place-next j =
      mod-add-mod (h + j * step h) length (step h) ∙ ap (λ (x : ℕ). x % length) (omega arith)

  none-rounds :
      (fuel j : ℕ)
      → probe fuel length stop h (place j) ≡ some none
      → (e : ℕ) × (j < e) × (place e ≡ h) × ((k : ℕ) → j ≤ k → k < e → stop (place k) ≡ false)
  unfolding probe
  none-rounds zero j r = absurd (ground (arith, r))
  none-rounds (suc fuel) j r =
      let idle : stop (place j) ≡ false = ground (arith, r) in
      elim (Bool-cases ((place j + step h) % length == h)) [
        | inl back ↦ (
          suc j,
          omega arith,
          sym (place-next j) ∙ (==_iff ((place j + step h) % length) h).0 back,
          λ k lo hi. let same : k ≡ j = omega arith in rw same idle,
        )
        | inr on ↦
            let rest : probe fuel length stop h ((place j + step h) % length) ≡ some none =
              ground (arith, r, on, idle) in
            let (e, lt, back, idles) =
              none-rounds fuel (suc j)
                (subst (λ (x : ℕ). probe fuel length stop h x ≡ some none) (place-next j) rest) in
            (
              e,
              omega arith,
              back,
              λ k lo hi. elim (Bool-cases (k == j)) [
                | inl same ↦ rw ((==_iff k j).0 same) idle
                | inr other ↦ idles k (ground (arith, other)) hi
              ],
            )
      ]

  -- What holds in the rounds up to the return holds in all.
  all-rounds :
      (e : ℕ)
      → 0 < e
      → place e ≡ h
      → ((k : ℕ) → k < e → stop (place k) ≡ false)
      → (bound k : ℕ) → k ≤ bound
      → stop (place k) ≡ false
  all-rounds e pos back idles zero k le = idles k (omega arith)
  all-rounds e pos back idles (suc bound) k le = elim (Bool-cases (ltb k e)) [
    | inl lt ↦ idles k (ltb→lt k e lt)
    | inr ge ↦
        let split : h + k * step h ≡ h + e * step h + (k - e) * step h =
          omega (arith, ap (λ (x : ℕ). x * step h) (sub_back k e (ground (arith, ge)))) in
        let same : place k ≡ place (k - e) =
          ap (λ (x : ℕ). x % length) split
          ∙ sym (mod-add-mod (h + e * step h) length ((k - e) * step h))
          ∙ ap (λ (x : ℕ). (x + (k - e) * step h) % length) back in
        rw same (all-rounds e pos back idles bound (k - e) (omega arith))
  ]

step-odd : (h : ℕ) → step h % 2 ≡ 1
step-odd h = ground arith

-- In a table whose length is a power of two, a search that finds nothing has met every entry.
pub probe-none :
    (n h : ℕ) (stop : ℕ → Bool)
    → h < 2 ^ n
    → probe (2 ^ n) (2 ^ n) stop h h ≡ some none
    → (b : ℕ) → b < 2 ^ n
    → stop b ≡ false
probe-none n h stop lt r b bl =
    let start : place (2 ^ n) stop h 0 ≡ h =
      ap (λ (x : ℕ). x % 2 ^ n) (omega arith) ∙ mod-eq_of_lt lt in
    let (e, pos, back, idles) =
      none-rounds (2 ^ n) stop h (2 ^ n) 0
        (subst (λ (x : ℕ). probe (2 ^ n) (2 ^ n) stop h x ≡ some none) (sym start) r) in
    let (j, jl, at) = meets n (step h) (step-odd h) h b lt bl in
    subst (λ (x : ℕ). stop x ≡ false) at
      (all-rounds (2 ^ n) stop h e pos back (λ k lo. idles k (omega arith) lo) j j (omega arith))

pub probe-none_at :
    (length n h : ℕ) (stop : ℕ → Bool) (b : ℕ)
    → length ≡ 2 ^ n
    → h < length
    → probe length length stop h h ≡ some none
    → b < length
    → stop b ≡ false
probe-none_at length n h stop b e =
    subst (λ (x : ℕ). h < x → probe x x stop h h ≡ some none → b < x → stop b ≡ false) (sym e)
      (λ lt r bl. probe-none n h stop lt r b bl)
