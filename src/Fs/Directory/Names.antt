-- ===== src/Fs/Directory/Names.antt =====
-- The names in the entries of a directory of kernel/fs/fs.c.
use gos_v.Common.{
  ℕ, zero, suc, ◌+◌, ◌-◌, ◌*◌, ◌^◌, ◌<◌, ◌≤◌, ◌≡◌, refl, ap, sym, ◌∙◌, subst, inl, inr, arith, Bool,
  true, false, List, [], ◌∷◌, ◌==◌, ltb, if◌then◌else◌, Bool-cases, length, get_or,
}
use gos_v.Utils.{string_equal, string_length}
use gos_v.Utils.Text.{text, string_equal_iff, string_length-text}
use gos_v.Fs.Inode.{byte_of_word, word_at}
use gos_v.Fs.Inode.Words.{bytes_word}
use gos_v.Fs.Directory.{entry_inode_id, bytes_from, entry_name, entry_byte, patched}

at_start : (f g : ℕ → ℕ) (i : ℕ) → f (i + 0) ≡ g (i + 0) → f i ≡ g i
at_start f g i h = let e : i ≡ i + 0 = omega arith in subst (λ k. f k ≡ g k) (sym e) h

shifted : (f g : ℕ → ℕ) (i r : ℕ) → f (i + suc r) ≡ g (i + suc r) → f (i + 1 + r) ≡ g (i + 1 + r)
shifted f g i r h = let e : i + 1 + r ≡ i + suc r = omega arith in subst (λ k. f k ≡ g k) (sym e) h

rest_shorter :
    (f : ℕ → ℕ) (i n w : ℕ)
    → (f i == 0) ≡ false
    → length (text (bytes_from f i (suc n))) < suc w
    → length (text (bytes_from f (i + 1) n)) < w
unfolding bytes_from
rest_shorter f i n w z h =
    let k =
      subst (λ b. length (if b then [] else f i ∷ text (bytes_from f (i + 1) n)) < suc w) z h in
    omega (arith, k)

-- A text that ends within the bytes on which two memories agree.
text-agree :
    (f g : ℕ → ℕ) (i n w : ℕ)
    → w ≤ n
    → length (text (bytes_from f i n)) < w
    → ((r : ℕ) → r < w → f (i + r) ≡ g (i + r))
    → text (bytes_from g i n) ≡ text (bytes_from f i n)
unfolding bytes_from
text-agree f g i zero w l h a = absurd (omega arith)
text-agree f g i (suc n) zero l h a = absurd (omega arith)
text-agree f g i (suc n) (suc w) l h a =
    let e = at_start f g i (a 0 (omega arith)) in
    elim (Bool-cases (f i == 0)) [
      | inl z ↦ rw (sym e, z) refl
      | inr z ↦
          rw (sym e, z)
            (ap (λ t. f i ∷ t)
              (text-agree f g (i + 1) n w (omega arith) (rest_shorter f i n w z h)
                (λ r k. shifted f g i r (a (suc r) (omega arith)))))
    ]

next_place : (i r : ℕ) → i + suc r ≡ i + 1 + r
next_place i r = omega arith

first_byte : (c n : ℕ) → (if ltb 0 (suc n) then c else 0) ≡ c
first_byte c n = ground arith

later_byte : (r n x : ℕ) → (if ltb (suc r) (suc n) then x else 0) ≡ (if ltb r n then x else 0)
later_byte r n x = ground arith

stored_byte :
    (c : ℕ) (s : List ℕ) (g : ℕ → ℕ) (i w : ℕ) (b : Bool) (r : ℕ)
    → c == 0 ≡ b
    → g (i + r) ≡ (if ltb r (string_length (c ∷ s)) then get_or (c ∷ s) r 0 else 0)
    → g (i + r) ≡ (if ltb r (if b then 0 else suc (string_length s)) then get_or (c ∷ s) r 0 else 0)
unfolding string_length
stored_byte c s g i w b r z h =
    subst
      (λ b.
        g (i + r)
        ≡ (if ltb r (if b then 0 else suc (string_length s)) then get_or (c ∷ s) r 0 else 0))
      z h

-- A text that is stored with zeros behind it.
text-stored :
    (name : List ℕ) (g : ℕ → ℕ) (i n w : ℕ)
    → w ≤ n
    → string_length name < w
    → ((r : ℕ) → r < w → g (i + r) ≡ (if ltb r (string_length name) then get_or name r 0 else 0))
    → text (bytes_from g i n) ≡ text name
unfolding bytes_from string_length
text-stored name g i zero w l h a = absurd (omega arith)
text-stored name g i (suc n) zero l h a = absurd (omega arith)
text-stored [] g i (suc n) (suc w) l h a =
    let e = at_start g (λ k. 0) i (a 0 (omega arith)) in rw e refl
text-stored (c ∷ s) g i (suc n) (suc w) l h a = elim (Bool-cases (c == 0)) [
  | inl z ↦
      let e = at_start g (λ k. 0) i (stored_byte c s g i w true 0 z (a 0 (omega arith))) in
      rw (e, z) refl
  | inr z ↦
      let e =
        at_start g (λ k. c) i
          (stored_byte c s g i w false 0 z (a 0 (omega arith)) ∙ first_byte c (string_length s)) in
      let k = subst (λ b. (if b then 0 else suc (string_length s)) < suc w) z h in
      rw (e, z)
        (ap (λ t. c ∷ t)
          (text-stored s g (i + 1) n w (omega arith) (omega (arith, k)) (λ r m.
            subst (λ q. g q ≡ (if ltb r (string_length s) then get_or s r 0 else 0))
              (next_place i r)
              (stored_byte c s g i w false (suc r) z (a (suc r) (omega arith))
                ∙ later_byte r (string_length s) (get_or s r 0)))))
]

patched_byte :
    (buffer : ℕ → ℕ) (name : List ℕ) (id j r : ℕ)
    → r < 28
    → patched buffer (32 * j) (entry_byte name id) (32 * j + 4 + r)
      ≡ (if ltb r (string_length name) then get_or name r 0 else 0)
unfolding patched entry_byte
patched_byte buffer name id j r h =
    let e : 32 * j + 4 + r - 32 * j ≡ 4 + r = omega arith in
    let f : 4 + r - 4 ≡ r = omega arith in rw (e, f) (ground arith)

-- The entry that is written has its name.
pub entry_name-patched :
    (buffer : ℕ → ℕ) (name : List ℕ) (id j : ℕ)
    → j < 16
    → string_length name < 28
    → string_equal (entry_name (patched buffer (32 * j) (entry_byte name id)) j) name ≡ true
unfolding entry_name
entry_name-patched buffer name id j h l =
    let (f, g) =
      string_equal_iff (entry_name (patched buffer (32 * j) (entry_byte name id)) j) name in
    g (
      text-stored name _ (32 * j + 4) (512 - (32 * j + 4)) 28 (omega arith) l
        (λ r k. patched_byte buffer name id j r k))

before_patch :
    (buffer entry : ℕ → ℕ) (j j' r : ℕ)
    → j' < j
    → r < 28
    → patched buffer (32 * j) entry (32 * j' + 4 + r) ≡ buffer (32 * j' + 4 + r)
unfolding patched
before_patch buffer entry j j' r h g = ground arith

-- An entry before a place where a block is written has the name of a short text after it only if it
-- has it before.
pub entry_name-before :
    (buffer : ℕ → ℕ) (entry : ℕ → ℕ) (name : List ℕ) (j j' : ℕ)
    → j < 16
    → j' < j
    → string_length name < 28
    → string_equal (entry_name buffer j') name ≡ false
    → string_equal (entry_name (patched buffer (32 * j) entry) j') name ≡ false
unfolding entry_name
entry_name-before buffer entry name j j' h g l n =
    elim (Bool-cases (string_equal (entry_name (patched buffer (32 * j) entry) j') name)) [
      | inr e ↦ e
      | inl e ↦
          let p = (string_equal_iff (entry_name (patched buffer (32 * j) entry) j') name).0 e in
          let t =
            text-agree (patched buffer (32 * j) entry) buffer (32 * j' + 4) (512 - (32 * j' + 4)) 28
              (omega arith) (omega (arith, ap length p, string_length-text name, l))
              (λ r k. before_patch buffer entry j j' r g k) in
          let q = (string_equal_iff (entry_name buffer j') name).1 (t ∙ p) in cc
    ]

id_byte :
    (buffer : ℕ → ℕ) (name : List ℕ) (id j r : ℕ)
    → r < 4
    → patched buffer (32 * j) (entry_byte name id) (32 * j + r) ≡ byte_of_word id r
unfolding patched entry_byte
id_byte buffer name id j r h = let e : 32 * j + r - 32 * j ≡ r = omega arith in rw e (ground arith)

first_id_byte :
    (buffer : ℕ → ℕ) (name : List ℕ) (id j : ℕ)
    → patched buffer (32 * j) (entry_byte name id) (32 * j) ≡ byte_of_word id 0
first_id_byte buffer name id j =
    let e : 32 * j ≡ 32 * j + 0 = omega arith in
    ap (patched buffer (32 * j) (entry_byte name id)) e ∙ id_byte buffer name id j 0 (omega arith)

-- The entry that is written has its number.
pub entry_inode_id-patched :
    (buffer : ℕ → ℕ) (name : List ℕ) (id j : ℕ)
    → id < 2 ^ 32
    → entry_inode_id (patched buffer (32 * j) (entry_byte name id)) j ≡ id
unfolding entry_inode_id word_at byte_of_word
entry_inode_id-patched buffer name id j h =
    rw
      (
        first_id_byte buffer name id j,
        id_byte buffer name id j 1 (omega arith),
        id_byte buffer name id j 2 (omega arith),
        id_byte buffer name id j 3 (omega arith),
      )
      (bytes_word id h)
