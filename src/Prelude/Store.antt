-- ===== src/Prelude/Store.antt =====
-- Memory as a function from addresses, and writes to it.
use opendylan.Prelude.{ℕ, Bool, ◌+◌, ◌&&◌, ◌≡◌, ◌≢◌, ==_refl, ==_ne, leb, ltb, ◌==◌, if◌then◌else◌}

-- An address. C's NULL is 0.
abbrev pub Ptr : Type 0
Ptr = ℕ

abbrev pub null : Ptr
null = 0

-- A write of one cell.
abbrev pub update {ℓ} : {A : Type ℓ} → (ℕ → A) → ℕ → A → ℕ → A
update h p c a = if a == p then c else h a

-- Whether index `i` lies in the `n` places from `from` on.
abbrev pub inside : (from n i : ℕ) → Bool
inside from n i = leb from i && ltb i (from + n)

-- `memcpy` of `n` words from `src` to `dst`, both from index `from` on.
abbrev pub copy_words {ℓ} : {A : Type ℓ} → (from n : ℕ) → (dst src : ℕ → A) → ℕ → A
copy_words from n dst src i = if inside from n i then src i else dst i

pub update_self {ℓ} : {A : Type ℓ} (h : ℕ → A) (p : ℕ) (c : A) → update h p c p ≡ c
update_self h p c = rw (==_refl p)

pub update-ne {ℓ} : {A : Type ℓ} (h : ℕ → A) (p : ℕ) (c : A) (a : ℕ) → a ≢ p → update h p c a ≡ h a
update-ne h p c a ne = rw (==_ne a p ne)
