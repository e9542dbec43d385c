-- ===== src/Ds/Hash/Tests.antt =====
-- The theorems on kernel/ds/hash.c at maps of numbers and of strings.
use gos_v.Common.{
  ℕ, ◌+◌, ◌<◌, ◌≡◌, refl, true, false, List, [], ◌∷◌, Outcome, ok, ◌>>=◌, length, get_or, zero, suc,
  ap, ◌∙◌, ne→==, arith, set, replicate, ◌==◌, if◌then◌else◌,
}
use gos_v.Utils.{string_equal, string_ascii_total}
use gos_v.Ds.Hash.{
  Value, HashTable, no_value, codes, number, kind_of, get, put, delete, new_map, probe, slot, hash,
  spread, same_key, available, is_key_matched,
}
use gos_v.Ds.Hash.Probe.{seek}
use gos_v.Ds.Hash.Laws.{IsMap, found, get-put_self}
use gos_v.Ds.Hash.Reach.{Reaches, new_map-Reaches, put-Reaches, get-put_other, put-ok}
use gos_v.Ds.Hash.Remove.{delete_loses}

-- Pointers 1 and 2 lead to equal strings, 3 to another of the same sum.
abbrev strings : ℕ → List ℕ
strings p = if p == 3 then codes "ba" else codes "ab"

abbrev entry : ℕ → ℕ → Value
entry k v = record { key = k; value = v; available = false }

abbrev numbers : List Value → HashTable
numbers t = record { table = t; key_type = codes "u32"; initialized = true }

abbrev fresh_table : List Value
fresh_table = replicate 101 no_value

-- 7 in its own slot, then 108, which has the same hash, in the next.
abbrev one : HashTable
one = numbers (set fresh_table 7 (entry 7 70))

abbrev two : HashTable
two = numbers (set (set fresh_table 7 (entry 7 70)) 8 (entry 108 80))

abbrev two_less_one : HashTable
two_less_one = numbers (set (set fresh_table 7 no_value) 8 (entry 108 80))

numbers-IsMap : (t : List Value) → length t ≡ 101 → IsMap number (numbers t)
unfolding kind_of string_equal
numbers-IsMap t l = record { made = refl; typed = refl; sized = l }

put_one : put strings (numbers fresh_table) 7 70 ≡ ok one
unfolding put hash kind_of string_equal spread probe available is_key_matched slot same_key
put_one = refl

put-two : put strings one 108 80 ≡ ok two
unfolding put_one
put-two = refl

delete-two : delete strings two 7 ≡ ok two_less_one
unfolding put_one delete
delete-two = refl

-- The string map takes equal strings for one key, and tells strings of the same sum apart.
text_script : Outcome (ℕ × ℕ)
text_script = do
  m ← put strings (new_map (codes "string")) 1 10
  m ← put strings m 3 30
  m ← put strings m 2 20
  a ← get strings m 1
  b ← get strings m 3
  ok (a, b)

get_text : text_script ≡ ok (20, 30)
unfolding text_script put_one get new_map string_ascii_total
get_text = refl

get-put_self_example : get strings two 108 ≡ ok 80
unfolding spread
get-put_self_example =
    get-put_self strings number one 108 80 two (numbers-IsMap _ refl) (omega arith) put-two

one-Reaches : Reaches strings number one.table
unfolding new_map spread
one-Reaches =
    put-Reaches strings number (numbers fresh_table) 7 70 one (numbers-IsMap _ refl) (omega arith)
      put_one (new_map-Reaches strings number (codes "u32"))

get-put_other_example : get strings two 7 ≡ get strings one 7
unfolding slot same_key spread
get-put_other_example =
    get-put_other strings number one 108 7 80 9 two (numbers-IsMap _ refl) (omega arith)
      (omega arith) refl one-Reaches put-two (omega arith) refl

put-ok_example : (m : HashTable) × (put strings one 108 80 ≡ ok m)
unfolding slot spread
put-ok_example =
    put-ok strings number one 108 80 9 (numbers-IsMap _ refl) (omega arith) (omega arith) refl

-- 108 was in the map, and is lost.
get_before : get strings two 108 ≡ ok 80
unfolding put_one get
get_before = refl

delete_loses_example : get strings two_less_one 108 ≡ ok 0
unfolding spread found seek slot same_key
delete_loses_example =
    delete_loses strings number two 7 108 two_less_one (numbers-IsMap _ refl) (omega arith)
      (omega arith) refl delete-two

-- The numbers from 0 to 100 fill the table, so 101 is sought for ever.
abbrev full_from : ℕ → ℕ → List Value
full_from zero i = []
full_from (suc n) i = entry i 1 ∷ full_from n (i + 1)

full-entry : (n i j : ℕ) → j < n → get_or (full_from n i) j no_value ≡ entry (i + j) 1
full-entry zero i j h = absurd (omega arith)
full-entry (suc n) i zero h = ap (λ k. entry k 1) (omega arith)
full-entry (suc n) i (suc j) h =
    full-entry n (i + 1) j (omega arith) ∙ ap (λ k. entry k 1) (omega arith)

full_apart :
    (j : ℕ)
    → j < 101
    → ((slot (full_from 101 0) j).available ≡ false)
      × (same_key strings number 101 (slot (full_from 101 0) j).key ≡ false)
unfolding slot same_key
full_apart j h =
    let e = full-entry 101 0 j h in
    (ap (λ x. x.available) e, ap (λ x. 101 == x.key) e ∙ ne→== 101 (0 + j) (omega arith))
