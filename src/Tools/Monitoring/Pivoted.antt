-- ===== src/Tools/Monitoring/Pivoted.antt =====
-- tools/monitoring.py: the rows of `_pivot_lqm` and `_pivot_probe`.
use prisma_sdwan_mcp.Prelude.{
  if◌then◌else◌, Bool-cases, Option-cases, String, ◌≡◌, refl, sym, ap, ◌∙◌, inl, inr, true, false,
  ◌&&◌, Option, none, some, List, [], ◌∷◌, str_eq,
}
use prisma_sdwan_mcp.Prelude.Text.{Text, text_eq, text_eq→eq, text_eq_refl}
use prisma_sdwan_mcp.Value.{Value, Fields, get, set}
use prisma_sdwan_mcp.Tools.Monitoring.Pivot.{Rows, same_key, put_entry, Entry, pivot}
use prisma_sdwan_mcp.Prelude.Result.{none_absurd}
use prisma_sdwan_mcp.Value.Entries.{get-set}

-- The row under a key.
abbrev pub row_at : List Text → Rows → Option Fields
row_at key [] = none
row_at key ((k, fs) ∷ rows) =
    let later = row_at key rows in if same_key k key then some fs else later

-- What an entry makes of the row under its key: a new row starts with the entry's own.
abbrev pub entered : Entry → Option Fields → Option Fields
entered e none = some (set e.name e.value e.first)
entered e (some fs) = some (set e.name e.value fs)

-- The row that the entries with a key make, one after the other.
abbrev pub row_of : List Text → List Entry → Option Fields → Option Fields
row_of key [] row = row
row_of key (e ∷ es) row = row_of key es (if same_key e.key key then entered e row else row)

-- The last value that an entry with a key and a name has.
abbrev pub last_value : List Text → String → List Entry → Option Value
last_value key name [] = none
last_value key name (e ∷ es) = elim (last_value key name es) [
  | some v ↦ some v
  | none ↦ if same_key e.key key && str_eq e.name name then some e.value else none
]

abbrev pub cell : String → Option Fields → Option Value
cell name none = none
cell name (some fs) = get name fs

-- No two rows have the same key.
abbrev pub AreApart : Rows → Type 0
AreApart [] = Unit
AreApart ((k, fs) ∷ rows) = (row_at k rows ≡ none) × AreApart rows

same_key-eq : (s t : List Text) → same_key s t ≡ true → s ≡ t
unfolding same_key
same_key-eq [] [] h = refl
same_key-eq [] (t ∷ ts) h = cc
same_key-eq (s ∷ ss) [] h = cc
same_key-eq (s ∷ ss) (t ∷ ts) h = elim (Bool-cases (text_eq s t)) [
  | inl e ↦
      let first = text_eq→eq s t e in let rest = same_key-eq ss ts (rw (same_key, e) at h) in cc
  | inr e ↦ let no : false ≡ true = rw (same_key, e) at h in cc
]

same_key_refl : (s : List Text) → same_key s s ≡ true
unfolding same_key
same_key_refl [] = refl
same_key_refl (s ∷ ss) = rw (same_key, text_eq_refl s) (same_key_refl ss)

differs : (s t : List Text) → same_key t s ≡ false → same_key s t ≡ false
differs s t h = elim (Bool-cases (same_key s t)) [
  | inl e ↦
      let same = same_key-eq s t e in
      let no : true ≡ false = (sym (same_key_refl t) ∙ (rw same at h)) in cc
  | inr e ↦ e
]

row_at-put_entry :
    (key : List Text) (e : Entry) (rows : Rows)
    → row_at key (put_entry e.key e.first e.name e.value rows)
      ≡ (if same_key e.key key then entered e (row_at key rows) else row_at key rows)
unfolding put_entry
row_at-put_entry key e [] = refl
row_at-put_entry key e ((k, fs) ∷ rows) = elim (Bool-cases (same_key k e.key)) [
  | inl h ↦
      let same = same_key-eq k e.key h in
      rw (h, same)
        (elim (Bool-cases (same_key e.key key)) [ inl f ↦ rw f refl | inr f ↦ rw f refl ])
  | inr h ↦
      rw (h, row_at-put_entry key e rows)
        (elim (Bool-cases (same_key k key)) [
          | inl f ↦
              let same = same_key-eq k key f in
              let other : same_key e.key key ≡ false = differs e.key key (rw same at h) in
              rw (f, other) refl
          | inr f ↦ rw f refl
        ])
]

row_at-pivot :
    (key : List Text) (es : List Entry) (rows : Rows)
    → row_at key (pivot es rows) ≡ row_of key es (row_at key rows)
unfolding pivot
row_at-pivot key [] rows = refl
row_at-pivot key (e ∷ es) rows =
    row_at-pivot key es (put_entry e.key e.first e.name e.value rows)
    ∙ ap (λ row. row_of key es row) (row_at-put_entry key e rows)

put_entry-AreApart :
    (e : Entry) (rows : Rows)
    → AreApart rows
    → AreApart (put_entry e.key e.first e.name e.value rows)
unfolding put_entry
put_entry-AreApart e [] h = (refl, tt)
put_entry-AreApart e ((k, fs) ∷ rows) (first, later) = elim (Bool-cases (same_key k e.key)) [
  | inl h ↦ rw h (first, later)
  | inr h ↦ rw h (
    row_at-put_entry k e rows ∙ rw (differs e.key k h, first) refl,
    put_entry-AreApart e rows later,
  )
]

pivot-AreApart : (es : List Entry) (rows : Rows) → AreApart rows → AreApart (pivot es rows)
unfolding pivot
pivot-AreApart [] rows h = h
pivot-AreApart (e ∷ es) rows h = pivot-AreApart es _ (put_entry-AreApart e rows h)

abbrev value_or : Option Value → Option Value → Option Value
value_or (some v) other = some v
value_or none other = other

value_or-none : (r : Option Value) → r ≡ value_or r none
value_or-none none = refl
value_or-none (some v) = refl

-- A row that an entry with a name has come to has its value, or that of a later one.
cell-entered :
    (key : List Text) (name : String) (e : Entry) (es : List Entry) (fs : Fields)
    → same_key e.key key ≡ true
    → value_or (last_value key name es) (get name (set e.name e.value fs))
      ≡ value_or (last_value key name (e ∷ es)) (get name fs)
cell-entered key name e es fs h = elim (Option-cases (last_value key name es)) [
  | inr (v, f) ↦ rw f refl
  | inl f ↦
      rw (f, h, get-set e.name name e.value fs)
        (elim (Bool-cases (str_eq e.name name)) [ inl k ↦ rw k refl | inr k ↦ rw k refl ])
]

cell-passed :
    (key : List Text) (name : String) (e : Entry) (es : List Entry) (other : Option Value)
    → same_key e.key key ≡ false
    → value_or (last_value key name es) other ≡ value_or (last_value key name (e ∷ es)) other
cell-passed key name e es other h = elim (Option-cases (last_value key name es)) [
  | inr (v, f) ↦ rw f refl
  | inl f ↦ rw (f, h) refl
]

cell-row_of :
    (key : List Text) (name : String) (es : List Entry) (fs : Fields)
    → cell name (row_of key es (some fs)) ≡ value_or (last_value key name es) (get name fs)
cell-row_of key name [] fs = refl
cell-row_of key name (e ∷ es) fs = elim (Bool-cases (same_key e.key key)) [
  | inl h ↦
      let step : cell name (row_of key (e ∷ es) (some fs))
          ≡ cell name (row_of key es (some (set e.name e.value fs))) =
        rw h refl in
      step ∙ cell-row_of key name es (set e.name e.value fs) ∙ cell-entered key name e es fs h
  | inr h ↦
      let step : cell name (row_of key (e ∷ es) (some fs)) ≡ cell name (row_of key es (some fs)) =
        rw h refl in
      step ∙ cell-row_of key name es fs ∙ cell-passed key name e es (get name fs) h
]

value_or-some : (r other : Option Value) (v : Value) → r ≡ some v → value_or r other ≡ some v
value_or-some r other v h = rw h refl

-- The value of the last entry stands in the row.
row_of-last :
    (key : List Text) (name : String) (es : List Entry) (v : Value)
    → last_value key name es ≡ some v
    → cell name (row_of key es none) ≡ some v
row_of-last key name [] v h = none_absurd h
row_of-last key name (e ∷ es) v h = elim (Bool-cases (same_key e.key key)) [
  | inl k ↦
      let step : cell name (row_of key (e ∷ es) none)
          ≡ cell name (row_of key es (some (set e.name e.value e.first))) =
        rw k refl in
      step
      ∙ cell-row_of key name es (set e.name e.value e.first)
      ∙ cell-entered key name e es e.first k
      ∙ value_or-some (last_value key name (e ∷ es)) _ v h
  | inr k ↦
      let step : cell name (row_of key (e ∷ es) none) ≡ cell name (row_of key es none) =
        rw k refl in
      let rest : last_value key name es ≡ some v =
        value_or-none (last_value key name es)
        ∙ cell-passed key name e es none k
        ∙ sym (value_or-none (last_value key name (e ∷ es)))
        ∙ h in
      step ∙ row_of-last key name es v rest
]

-- The rows of a pivot implement the table of the values that the entries have under their keys and
-- names.
pub record IsPivot (es : List Entry) (rows : Rows) : Type 0 where
  pub apart : AreApart rows
  pub made : (key : List Text) → row_at key rows ≡ row_of key es none
  pub last :
      (key : List Text) (name : String) (v : Value)
      → last_value key name es ≡ some v
      → cell name (row_at key rows) ≡ some v

-- The rows that a pivot starts with none have different keys; the row of a key is the one that the
-- entries with this key make, one after the other, from the first one's own; and under each name it
-- has the value of the last entry with the key and the name.
pub pivot-IsPivot : (es : List Entry) → IsPivot es (pivot es [])
pivot-IsPivot es = record {
  apart = pivot-AreApart es [] tt;
  made = λ key. row_at-pivot key es [];
  last = λ key name v h.
      ap (λ row. cell name row) (row_at-pivot key es []) ∙ row_of-last key name es v h;
}
