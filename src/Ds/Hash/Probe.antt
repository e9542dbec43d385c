-- ===== src/Ds/Hash/Probe.antt =====
-- The probing loop of kernel/ds/hash.c, on a table whose key type is known.
use gos_v.Common.{
  ℕ, zero, suc, ◌+◌, ◌-◌, ◌%◌, ◌<◌, ◌≡◌, ◌≢◌, ◌⊎◌, inl, inr, refl, sym, ◌∙◌, Bool, true, false,
  some, List, Outcome, ok, panic, hang, arith, leb, if◌then◌else◌, length, set, get_or-set_self,
  get_or-set_ne,
}
use gos_v.Utils.Text.{string_equal_iff, string_ascii_total-text}
use gos_v.Ds.Hash.{
  Value, no_value, HashTable, Kind, number, text, kind_of, Stop, hit, unused, slot, available,
  spread, same_key, is_key_matched, probe,
}

Bool_of_iff : (a b : Bool) → (a ≡ true → b ≡ true) → (b ≡ true → a ≡ true) → a ≡ b
Bool_of_iff true b f g = sym (f refl)
Bool_of_iff false true f g = g refl
Bool_of_iff false false f g = refl

-- Keys that match each other match the same keys, and have the same hash.
pub same_key-congr :
    (strings : ℕ → List ℕ) (kind : Kind) (x y z : ℕ)
    → same_key strings kind x y ≡ true
    → (same_key strings kind x z ≡ same_key strings kind y z)
      × (spread strings kind x ≡ spread strings kind y)
unfolding same_key spread
same_key-congr strings number x y z e = ground arith
same_key-congr strings text x y z e =
    let p = (string_equal_iff (strings x) (strings y)).0 e in
    let xz = string_equal_iff (strings x) (strings z) in
    let yz = string_equal_iff (strings y) (strings z) in
    (
      Bool_of_iff _ _ (λ q. yz.1 (sym p ∙ xz.0 q)) (λ q. xz.1 (p ∙ yz.0 q)),
      string_ascii_total-text (strings x) (strings y) p,
    )

pub same_key_refl : (strings : ℕ → List ℕ) (kind : Kind) (x : ℕ) → same_key strings kind x x ≡ true
unfolding same_key
same_key_refl strings number x = ground arith
same_key_refl strings text x = (string_equal_iff (strings x) (strings x)).1 refl

module _ (strings : ℕ → List ℕ) (kind : Kind) where
  -- The loop on the bare table.
  unfoldable pub seek : List Value → ℕ → ℕ → ℕ → Outcome Stop
  seek t key zero i = hang
  seek t key (suc n) i =
      let rest = seek t key n ((i + 1) % 101) in
      if (slot t i).available
      then ok (unused i)
      else if same_key strings kind key (slot t i).key
      then ok (hit i)
      else rest

  -- On a map of this key type the loop is `seek`.
  pub probe-seek :
      (m : HashTable) (key n i : ℕ)
      → m.initialized ≡ true
      → kind_of m.key_type ≡ some kind
      → probe strings n m key i ≡ seek m.table key n i
  unfolding probe seek available is_key_matched
  probe-seek m key zero i h k = refl
  probe-seek m key (suc n) i h k = ground (arith, probe-seek m key n ((i + 1) % 101) h k)

  pub seek-unused :
      (t : List Value) (key n i j : ℕ)
      → seek t key n i ≡ ok (unused j)
      → (slot t j).available ≡ true
  unfolding seek
  seek-unused t key zero i j e = cc
  seek-unused t key (suc n) i j e = ground (arith, seek-unused t key n ((i + 1) % 101) j)

  pub seek-hit :
      (t : List Value) (key n i j : ℕ)
      → seek t key n i ≡ ok (hit j)
      → ((slot t j).available ≡ false) × (same_key strings kind key (slot t j).key ≡ true)
  unfolding seek
  seek-hit t key zero i j e = cc
  seek-hit t key (suc n) i j e = ground (arith, seek-hit t key n ((i + 1) % 101) j)

  pub seek-lt :
      (t : List Value) (key n i j : ℕ)
      → i < 101
      → (seek t key n i ≡ ok (hit j)) ⊎ (seek t key n i ≡ ok (unused j))
      → j < 101
  unfolding seek
  seek-lt t key zero i j h (inl e) = cc
  seek-lt t key zero i j h (inr e) = cc
  seek-lt t key (suc n) i j h (inl e) = ground (
    arith,
    λ (q : seek t key n ((i + 1) % 101) ≡ ok (hit j)).
        seek-lt t key n ((i + 1) % 101) j (omega arith) (inl q),
  )
  seek-lt t key (suc n) i j h (inr e) = ground (
    arith,
    λ (q : seek t key n ((i + 1) % 101) ≡ ok (unused j)).
        seek-lt t key n ((i + 1) % 101) j (omega arith) (inr q),
  )

  -- A slot that is unused stops the loop at the latest when the index gets there.
  pub seek-ends :
      (t : List Value) (key n i f : ℕ)
      → (slot t f).available ≡ true
      → f < 101
      → i < 101
      → (if leb i f then f - i else f + 101 - i) < n
      → seek t key n i ≢ hang
  unfolding seek
  seek-ends t key zero i f a hf hi d e = absurd (ground arith)
  seek-ends t key (suc n) i f a hf hi d e =
      ground (arith, seek-ends t key n ((i + 1) % 101) f a hf (omega arith))

  pub seek-congr :
      (x y : ℕ)
      → same_key strings kind x y ≡ true
      → (t : List Value) (n i : ℕ) → seek t x n i ≡ seek t y n i
  unfolding seek
  seek-congr x y e t zero i = refl
  seek-congr x y e t (suc n) i =
      rw
        (seek-congr x y e t n ((i + 1) % 101), (same_key-congr strings kind x y (slot t i).key e).0)

  -- A new entry in the unused slot where the loop for its key stops is found there.
  pub seek-insert :
      (t : List Value) (e : Value) (n i j : ℕ)
      → length t ≡ 101
      → e.available ≡ false
      → i < 101
      → seek t e.key n i ≡ ok (unused j)
      → seek (set t j e) e.key n i ≡ ok (hit j)
  unfolding seek slot
  seek-insert t e zero i j l a h s = cc
  seek-insert t e (suc n) i j l a h s = ground (
    arith,
    seek-insert t e n ((i + 1) % 101) j l a,
    seek-unused t e.key (suc n) i j,
    get_or-set_self t i e no_value,
    get_or-set_ne t j i e no_value,
    same_key_refl strings kind e.key,
  )

  -- A write to an unused slot, or one that keeps a slot's key, leaves what was found before.
  pub seek-insert_other :
      (t : List Value) (e : Value) (key n i j f : ℕ)
      → (slot t f).available ≡ true
      → seek t key n i ≡ ok (hit j)
      → seek (set t f e) key n i ≡ ok (hit j)
  unfolding seek slot
  seek-insert_other t e key zero i j f a s = cc
  seek-insert_other t e key (suc n) i j f a s =
      ground
        (arith, seek-insert_other t e key n ((i + 1) % 101) j f a, get_or-set_ne t f i e no_value)

  pub seek-update :
      (t : List Value) (e : Value) (key n i f : ℕ)
      → f < length t
      → e.available ≡ (slot t f).available
      → e.key ≡ (slot t f).key
      → seek (set t f e) key n i ≡ seek t key n i
  unfolding seek slot
  seek-update t e key zero i f l a k = refl
  seek-update t e key (suc n) i f l a k = ground (
    arith,
    seek-update t e key n ((i + 1) % 101) f l a k,
    get_or-set_ne t f i e no_value,
    get_or-set_self t f e no_value l,
  )

  -- A slot that is emptied stops the loop that found it.
  pub seek-delete :
      (t : List Value) (key n i j : ℕ)
      → length t ≡ 101
      → i < 101
      → seek t key n i ≡ ok (hit j)
      → seek (set t j no_value) key n i ≡ ok (unused j)
  unfolding seek slot
  seek-delete t key zero i j l h s = cc
  seek-delete t key (suc n) i j l h s = ground (
    arith,
    seek-delete t key n ((i + 1) % 101) j l,
    get_or-set_ne t j i no_value no_value,
    get_or-set_self t i no_value no_value,
    get_or-set_self t j no_value no_value,
    seek-hit t key (suc n) i j,
  )

  pub seek-ne-panic : (t : List Value) (key n i : ℕ) → seek t key n i ≢ panic
  unfolding seek
  seek-ne-panic t key zero i e = cc
  seek-ne-panic t key (suc n) i e = ground (arith, seek-ne-panic t key n ((i + 1) % 101))
