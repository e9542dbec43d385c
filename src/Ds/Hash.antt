-- ===== src/Ds/Hash.antt =====
-- kernel/ds/hash.c: the hash map with open addressing.
-- A key is a `void*`: a number, or a pointer to a string. What strings the pointers lead to is the
-- parameter `strings`; it stays as it is while the map is used.
pub mod Probe
pub mod Laws
pub mod Reach
pub mod Remove
mod Tests
use Prim.Native.Char.{code}
use Prim.Native.String.{String}
use gos_v.Common.{
  ℕ, zero, suc, ◌+◌, ◌-◌, ◌%◌, ◌^◌, Bool, true, false, Option, none, some, List, [], ◌∷◌, Outcome,
  ok, panic, hang, ◌>>=◌, ◌==◌, leb, if◌then◌else◌, get_or, set, replicate,
}
use gos_v.Utils.{string_equal, string_ascii_total}

abbrev pub codes : String → List ℕ
codes String.[] = 0 ∷ []
codes (String.◌∷◌ c s) = code c ∷ codes s

-- `HASH_TABLE_SIZE`
abbrev pub hash_table_size : ℕ
hash_table_size = 101

-- `struct Value`
pub record Value : Type 0 where
  pub key : ℕ
  pub value : ℕ
  pub available : Bool

abbrev pub no_value : Value
no_value = record { key = 0; value = 0; available = true }

-- `struct HashTable`, less `ValueType`, which no operation reads, and the function pointers.
pub record HashTable : Type 0 where
  pub table : List Value
  pub key_type : List ℕ
  pub initialized : Bool

abbrev pub type_list : List (List ℕ)
type_list =
    codes "u32"
    ∷ codes "i32"
    ∷ codes "i8"
    ∷ codes "u8"
    ∷ codes "u16"
    ∷ codes "i16"
    ∷ codes "string"
    ∷ codes "char*"
    ∷ codes "char *"
    ∷ []

-- How a key of a listed type is read: the first six types are numbers, the others strings.
pub data Kind : Type 0 where
  number text : Kind

-- The loop over `typeList`, as `hash` and `isKeyMatched` write it.
find_type : ℕ → List (List ℕ) → List ℕ → Option Kind
find_type i [] key_type = none
find_type i (t ∷ ts) key_type =
    let rest = find_type (i + 1) ts key_type in
    if string_equal key_type t then (if leb i 5 then some number else some text) else rest

pub kind_of : List ℕ → Option Kind
unfolding find_type
kind_of key_type = find_type 0 type_list key_type

-- Where the loops of `Get`, `Put` and `Delete` stop: at a slot with the key, or at an unused one.
pub data Stop : Type 0 where
  hit : ℕ → Stop
  unused : ℕ → Stop

pub slot : List Value → ℕ → Value
slot table index = get_or table index no_value

pub available : HashTable → ℕ → Outcome Bool
unfolding slot
available map index = if map.initialized then ok (slot map.table index).available else panic

-- `NewMap`
pub new_map : List ℕ → HashTable
new_map key_type = record {
  table = replicate hash_table_size no_value;
  key_type = key_type;
  initialized = true;
}

module _ (strings : ℕ → List ℕ) where
  -- The value that `hash` takes modulo the table's size.
  pub spread : Kind → ℕ → ℕ
  spread number key = key
  spread text key = string_ascii_total (strings key)

  pub hash : List ℕ → ℕ → Outcome ℕ
  hash key_type key = elim (kind_of key_type) [
    | none ↦ panic
    | some kind ↦
        let k = spread kind key in if k == 2 ^ 32 - 1 then panic else ok (k % hash_table_size)
  ]

  pub same_key : Kind → ℕ → ℕ → Bool
  same_key number key key' = key == key'
  same_key text key key' = string_equal (strings key) (strings key')

  pub is_key_matched : HashTable → ℕ → ℕ → Outcome Bool
  unfolding slot
  is_key_matched map index key =
      if map.initialized
      then elim (kind_of map.key_type) [
        | none ↦ panic
        | some kind ↦ ok (same_key kind key (slot map.table index).key)
      ]
      else panic

  probe_rest : Outcome Bool → ℕ → Outcome Stop → Outcome Stop
  probe_rest matched index rest = do m ← matched; if m then ok (hit index) else rest

  -- The loop that `Get`, `Put` and `Delete` share. After as many rounds as there are slots it is
  -- back at the index where it began, with the same table: it never ends.
  pub probe : ℕ → HashTable → ℕ → ℕ → Outcome Stop
  unfolding probe_rest
  probe zero map key index = hang
  probe (suc rounds) map key index =
      let rest = probe rounds map key ((index + 1) % hash_table_size) in
      do
        a ← available map index
        if a then ok (unused index) else probe_rest (is_key_matched map index key) index rest

  pub get : HashTable → ℕ → Outcome ℕ
  unfolding slot
  get self key =
      if self.initialized
      then (do
        index ← hash self.key_type key
        stop ← probe hash_table_size self key index
        elim stop [ hit i ↦ ok (slot self.table i).value | unused i ↦ ok 0 ])
      else panic

  pub put : HashTable → ℕ → ℕ → Outcome HashTable
  unfolding slot
  put self key value =
      if self.initialized
      then (do
        index ← hash self.key_type key
        stop ← probe hash_table_size self key index
        elim stop [
          | hit i ↦ ok (record self {
            table = set self.table i (record (slot self.table i) { value = value });
          })
          | unused i ↦ ok (record self {
            table = set self.table i (record { key = key; value = value; available = false });
          })
        ])
      else panic

  pub delete : HashTable → ℕ → Outcome HashTable
  delete self key =
      if self.initialized
      then (do
        index ← hash self.key_type key
        stop ← probe hash_table_size self key index
        elim stop [
          | hit i ↦ ok (record self { table = set self.table i no_value })
          | unused i ↦ ok self
        ])
      else panic
