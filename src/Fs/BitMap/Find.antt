-- ===== src/Fs/BitMap/Find.antt =====
-- What the searches of kernel/fs/fs.c for a clear bit find.
use gos_v.Common.{
  ℕ, ◌+◌, ◌*◌, ◌<◌, ◌≡◌, refl, subst, sym, ◌⊎◌, inl, inr, arith, Bool, true, false, not, Option,
  none, some,
}
use gos_v.Common.Bits.{has_bit}
use gos_v.Common.Search.{Found, first_from-Found, FirstSome, first_some-FirstSome}
use gos_v.Fs.BitMap.{Blocks, BitMap, with_index, clear_in_byte, clear_in_block, clear_in_map}

not-false : (b : Bool) → not b ≡ false → b ≡ true
not-false true h = refl
not-false false h = sym h

not-true : (b : Bool) → not b ≡ true → b ≡ false
not-true true h = sym h
not-true false h = refl

pub with_index-none {ℓ} : {A : Type ℓ} (i : ℕ) (r : Option A) → with_index i r ≡ none → r ≡ none
with_index-none i none h = refl
with_index-none i (some a) h = cc

pub with_index-some {ℓ} :
    {A : Type ℓ} (i j : ℕ) (a : A) (r : Option A)
    → with_index i r ≡ some (j, a)
    → (i ≡ j) × (r ≡ some a)
with_index-some i j a none h = cc
with_index-some i j a (some b) h = (cc, cc)

test : ℕ → ℕ → Bool
test byte k = not (has_bit byte k)

lex : (j' k' i j k : ℕ) → i ≡ j → k < 8 → j' * 8 + k' < j * 8 + k → (j' < i) ⊎ ((j' ≡ i) × (k' < k))
lex j' k' i j k e h l = ground arith

lex_block :
    (i' j' k' i b j k : ℕ)
    → b ≡ i
    → j < 512
    → k < 8
    → i' * 512 * 8 + j' * 8 + k' < i * 512 * 8 + j * 8 + k
    → (i' < b) ⊎ ((i' ≡ b) × (j' * 8 + k' < j * 8 + k))
lex_block i' j' k' i b j k e h g l = ground arith

byte-none : (byte : ℕ) → clear_in_byte byte ≡ none → (k : ℕ) → k < 8 → has_bit byte k ≡ true
unfolding clear_in_byte Found test
byte-none byte h k l = not-false _ (
    subst (Found (test byte) 8 0) h (first_from-Found (test byte) 8 0) k (omega arith)
      (omega arith))

byte-some :
    (byte k : ℕ)
    → clear_in_byte byte ≡ some k
    → (k < 8) × (has_bit byte k ≡ false) × ((k' : ℕ) → k' < k → has_bit byte k' ≡ true)
unfolding clear_in_byte Found test
byte-some byte k h =
    let (a, b, c, d) = subst (Found (test byte) 8 0) h (first_from-Found (test byte) 8 0) in
    (omega arith, not-true _ c, λ k' l. not-false _ (d k' (omega arith) l))

in_byte : (ℕ → ℕ) → ℕ → Option (ℕ × ℕ)
in_byte buffer j = with_index j (clear_in_byte (buffer j))

block-none :
    (buffer : ℕ → ℕ)
    → clear_in_block buffer ≡ none
    → (j k : ℕ) → j < 512
    → k < 8
    → has_bit (buffer j) k ≡ true
unfolding clear_in_block FirstSome in_byte
block-none buffer h j k l m =
    let e =
      subst (FirstSome (in_byte buffer) 512 0) h (first_some-FirstSome (in_byte buffer) 512 0) j
        (omega arith) (omega arith) in
    byte-none (buffer j) (with_index-none j (clear_in_byte (buffer j)) e) k m

block-some :
    (buffer : ℕ → ℕ) (j k : ℕ)
    → clear_in_block buffer ≡ some (j, k)
    → (j < 512)
      × (k < 8)
      × (has_bit (buffer j) k ≡ false)
      × ((j' k' : ℕ) → k' < 8 → j' * 8 + k' < j * 8 + k → has_bit (buffer j') k' ≡ true)
unfolding clear_in_block FirstSome in_byte
block-some buffer j k h =
    let (i, a, b, c, d) =
      subst (FirstSome (in_byte buffer) 512 0) h (first_some-FirstSome (in_byte buffer) 512 0) in
    let (e, f) = with_index-some i j k (clear_in_byte (buffer i)) c in
    let (x, y, z) = byte-some (buffer i) k f in
    (
      omega arith,
      x,
      subst (λ q. has_bit (buffer q) k ≡ false) e y,
      λ j' k' l m. elim (lex j' k' i j k e x m) [
        | inl q ↦
            byte-none (buffer j')
              (with_index-none j' (clear_in_byte (buffer j')) (d j' (omega arith) q)) k' l
        | inr (q, t) ↦ subst (λ u. has_bit (buffer u) k' ≡ true) (sym q) (z k' t)
      ],
    )

module _ (disk : Blocks) (map : BitMap) where
  unfoldable pub buffer : ℕ → ℕ → ℕ
  buffer i = disk (map.start_block_id + i)

  in_block : ℕ → Option (ℕ × (ℕ × ℕ))
  in_block i = with_index i (clear_in_block (buffer i))

  pub map-none :
      clear_in_map disk map ≡ none
      → (i j k : ℕ) → i < map.blocks
      → j < 512
      → k < 8
      → has_bit (buffer i j) k ≡ true
  unfolding clear_in_map FirstSome in_block buffer
  map-none h i j k l m n =
      let e =
        subst (FirstSome in_block map.blocks 0) h (first_some-FirstSome in_block map.blocks 0) i
          (omega arith) (omega arith) in
      block-none (buffer i) (with_index-none i (clear_in_block (buffer i)) e) j k m n

  pub map-some :
      (i j k : ℕ)
      → clear_in_map disk map ≡ some (i, (j, k))
      → (i < map.blocks)
        × (j < 512)
        × (k < 8)
        × (has_bit (buffer i j) k ≡ false)
        × ((i' j' k' : ℕ)
            → j' < 512
            → k' < 8
            → i' * 512 * 8 + j' * 8 + k' < i * 512 * 8 + j * 8 + k
            → has_bit (buffer i' j') k' ≡ true)
  unfolding clear_in_map FirstSome in_block buffer
  map-some i j k h =
      let (b, p, q, c, d) =
        subst (FirstSome in_block map.blocks 0) h (first_some-FirstSome in_block map.blocks 0) in
      let (e, f) = with_index-some b i (j, k) (clear_in_block (buffer b)) c in
      let (x, y, w, z) = block-some (buffer b) j k f in
      (
        omega arith,
        x,
        y,
        subst (λ u. has_bit (buffer u j) k ≡ false) e w,
        λ i' j' k' l n m. elim (lex_block i' j' k' i b j k e x y m) [
          | inl o ↦
              block-none (buffer i')
                (with_index-none i' (clear_in_block (buffer i')) (d i' (omega arith) o)) j' k' l n
          | inr (o, t) ↦ subst (λ u. has_bit (buffer u j') k' ≡ true) (sym o) (z j' k' n t)
        ],
      )
