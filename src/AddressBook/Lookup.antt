-- ===== src/AddressBook/Lookup.antt =====
-- What a lookup in the table of src/addressbook.c finds.
use bbg_vo_ip.Prelude.{
  ℕ, ◌≡◌, ◌≢◌, refl, ◌⊎◌, inl, inr, Text, List, [], ◌∷◌, Option, none, some, arith, same_text,
  same_text_iff, Bool-cases, Option-cases,
}
use bbg_vo_ip.World.{Address}
use bbg_vo_ip.AddressBook.{
  address_found, name_found, address_unknown, address_reverse_lookup_failed, lookup, reverse_lookup,
  resolve,
}

-- `a` is the first entry of the table that has the property.
pub data First (P : Address → Type 0) (a : Address) : List Address → Type 0 where
  here : {b : Address} {table : List Address} → P b → a ≡ b → First P a (b ∷ table)
  later : {b : Address} {table : List Address} → ¬ P b → First P a table → First P a (b ∷ table)

-- No entry of the table has the property.
abbrev pub Absent : (Address → Type 0) → List Address → Type 0
Absent P [] = Unit
Absent P (a ∷ table) = (¬ P a) × Absent P table

abbrev pub IsNamed : Text → Address → Type 0
IsNamed name a = a.name ≡ name

abbrev pub IsAt : Text → Address → Type 0
IsAt ip a = a.inet_address ≡ ip

-- Every lookup by name ends in one of two ways: ADDRESS_FOUND with the first entry of that name copied
-- to `*address`, or ADDRESS_UNKNOWN with no such entry in the table and `*address` as it was.
pub lookup_cases :
    (table : List Address) (name : Text) (address : Address)
    → ((a : Address) × (lookup table name address ≡ (address_found, a))
        × First (IsNamed name) a table)
      ⊎ ((lookup table name address ≡ (address_unknown, address)) × Absent (IsNamed name) table)
unfolding lookup
lookup_cases [] name address = inr (refl, tt)
lookup_cases (b ∷ table) name address = elim (Bool-cases (same_text b.name name)) [
  | inl hit ↦ inl (b, rw hit, here ((same_text_iff b.name name).0 hit) refl)
  | inr miss ↦
      let other : ¬ (b.name ≡ name) = ground (arith, same_text_iff b.name name) in
      elim (lookup_cases table name address) [
        | inl (a, found, first) ↦ inl (a, rw miss found, later other first)
        | inr (lost, absent) ↦ inr (rw miss lost, (other, absent))
      ]
]

-- Every lookup by address ends in one of two ways: NAME_FOUND with the first entry of that address
-- copied to `*address`, or ADDRESS_REVERSE_LOOKUP_FAILED with no such entry in the table and
-- `*address` as it was.
pub reverse_lookup_cases :
    (table : List Address) (ip : Text) (address : Address)
    → ((a : Address) × (reverse_lookup table ip address ≡ (name_found, a))
        × First (IsAt ip) a table)
      ⊎ ((reverse_lookup table ip address ≡ (address_reverse_lookup_failed, address))
          × Absent (IsAt ip) table)
unfolding reverse_lookup
reverse_lookup_cases [] ip address = inr (refl, tt)
reverse_lookup_cases (b ∷ table) ip address = elim (Bool-cases (same_text b.inet_address ip)) [
  | inl hit ↦ inl (b, rw hit, here ((same_text_iff b.inet_address ip).0 hit) refl)
  | inr miss ↦
      let other : ¬ (b.inet_address ≡ ip) = ground (arith, same_text_iff b.inet_address ip) in
      elim (reverse_lookup_cases table ip address) [
        | inl (a, found, first) ↦ inl (a, rw miss found, later other first)
        | inr (lost, absent) ↦ inr (rw miss lost, (other, absent))
      ]
]

pub lookup-Absent :
    (table : List Address) (name : Text) (address : Address)
    → Absent (IsNamed name) table
    → lookup table name address ≡ (address_unknown, address)
unfolding lookup
lookup-Absent [] name address absent = refl
lookup-Absent (b ∷ table) name address absent =
    ground (arith, same_text_iff b.name name, lookup-Absent table name address absent.1)

pub reverse_lookup-Absent :
    (table : List Address) (ip : Text) (address : Address)
    → Absent (IsAt ip) table
    → reverse_lookup table ip address ≡ (address_reverse_lookup_failed, address)
unfolding reverse_lookup
reverse_lookup-Absent [] ip address absent = refl
reverse_lookup-Absent (b ∷ table) ip address absent =
    ground (arith, same_text_iff b.inet_address ip, reverse_lookup-Absent table ip address absent.1)

pub reverse_lookup-First :
    (table : List Address) (ip : Text) (address a : Address)
    → First (IsAt ip) a table
    → reverse_lookup table ip address ≡ (name_found, a)
unfolding reverse_lookup
reverse_lookup-First [] ip address a x = elim x [ ]
reverse_lookup-First (b ∷ table) ip address a (here at e) =
    ground (arith, same_text_iff b.inet_address ip)
reverse_lookup-First (b ∷ table) ip address a (later other first) =
    ground (arith, same_text_iff b.inet_address ip, reverse_lookup-First table ip address a first)

-- No two entries of the table have the same address.
abbrev pub Distinct : List Address → Type 0
Distinct [] = Unit
Distinct (a ∷ table) = Absent (IsAt a.inet_address) table × Distinct table

lookup-ne :
    (table : List Address) (ip name : Text) (address a : Address)
    → Absent (IsAt ip) table
    → lookup table name address ≡ (address_found, a)
    → a.inet_address ≢ ip
unfolding lookup
lookup-ne [] ip name address a absent found = cc
lookup-ne (b ∷ table) ip name address a absent found =
    ground (arith, lookup-ne table ip name address a absent.1)

-- In a table of distinct addresses, the address found under a name leads back to the same entry.
pub reverse_lookup-lookup :
    (table : List Address) (name : Text) (address other a : Address)
    → Distinct table
    → lookup table name address ≡ (address_found, a)
    → reverse_lookup table a.inet_address other ≡ (name_found, a)
unfolding lookup reverse_lookup
reverse_lookup-lookup [] name address other a d found = cc
reverse_lookup-lookup (b ∷ table) name address other a d found = ground (
  arith,
  same_text_iff b.inet_address a.inet_address,
  same_text_iff b.inet_address b.inet_address,
  lookup-ne table b.inet_address name address a d.0,
  reverse_lookup-lookup table name address other a d.1,
)

module _ (inet_pton : Text → Option ℕ) where
  -- Every `_in_addr` is what `inet_pton` makes of the entry's address.
  abbrev pub IsResolved : List Address → Type 0
  IsResolved [] = Unit
  IsResolved (a ∷ table) = (inet_pton a.inet_address ≡ some a.in_addr) × IsResolved table

  -- Two tables with the same names and addresses, in the same order.
  abbrev pub SameEntries : List Address → List Address → Type 0
  SameEntries [] [] = Unit
  SameEntries (a ∷ table) (b ∷ table') =
      (a.name ≡ b.name) × (a.inet_address ≡ b.inet_address) × SameEntries table table'
  SameEntries _ _ = ⊥

  -- Setting the addresses up ends in one of two ways: the same entries with each `_in_addr` set, or a
  -- refusal, and then `inet_pton` refuses the address of some entry, the first such one named.
  pub resolve_cases :
      (table : List Address)
      → ((table' : List Address) × (resolve inet_pton table ≡ some table')
          × IsResolved table'
          × SameEntries table table')
        ⊎ ((a : Address) × (resolve inet_pton table ≡ none)
            × First (λ b. inet_pton b.inet_address ≡ none) a table)
  unfolding resolve
  resolve_cases [] = inl ([], refl, tt, tt)
  resolve_cases (a ∷ table) = elim (Option-cases (inet_pton a.inet_address)) [
    | inl bad ↦ inr (a, rw (bad, resolve), here bad refl)
    | inr (n, good) ↦ elim (resolve_cases table) [
      | inl (table', e, r, s) ↦
          inl (record a { in_addr = n } ∷ table', rw (good, e, resolve), (good, r), (refl, refl, s))
      | inr (b, e, bad) ↦ inr (b, rw (good, e, resolve), later (λ refused. cc) bad)
    ]
  ]

  -- What a lookup by name finds in a table that has been set up was set up too.
  pub lookup-IsResolved :
      (table : List Address) (name : Text) (address a : Address)
      → IsResolved table
      → lookup table name address ≡ (address_found, a)
      → inet_pton a.inet_address ≡ some a.in_addr
  unfolding lookup
  lookup-IsResolved [] name address a r found = cc
  lookup-IsResolved (b ∷ table) name address a r found =
      ground (arith, lookup-IsResolved table name address a r.1)
