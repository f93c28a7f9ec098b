-- ===== src/AddressBook.antt =====
-- src/addressbook.c and include/addressbook.h: the table of known callers.
pub mod Lookup
mod Tests
use bbg_vo_ip.Prelude.{
  ℕ, Bool, Text, String, codes, List, [], ◌∷◌, Option, none, some, same_text, if◌then◌else◌,
}
use bbg_vo_ip.Sys.{Env}
use bbg_vo_ip.World.{Address, World, Act, ◌>>=◌, pure, exit, gets, modify}

-- `AddressLookupResult`
pub data LookupResult : Type 0 where
  address_found name_found address_unknown address_reverse_lookup_failed : LookupResult

abbrev entry : String → String → Address
entry name inet_address = record {
  name = codes name;
  inet_address = codes inet_address;
  in_addr = 0;
}

-- `lookupTable`, before `AddressBook_init`
abbrev pub lookup_table : List Address
lookup_table =
    entry "jeff" "10.0.0.10"
    ∷ entry "rulai" "10.0.0.20"
    ∷ entry "bryce" "10.0.0.30"
    ∷ entry "paymon" "10.0.0.40"
    ∷ []

-- The rounds of `AddressBook_init`: each entry's `_in_addr` is set, up to one that is no address.
unfoldable pub resolve : (Text → Option ℕ) → List Address → Option (List Address)
resolve inet_pton [] = some []
resolve inet_pton (a ∷ table) =
    let rest = resolve inet_pton table in
    elim (inet_pton a.inet_address) [
      | none ↦ none
      | some n ↦ elim rest [ none ↦ none | some table' ↦ some (record a { in_addr = n } ∷ table') ]
    ]

-- `AddressBook_init`
unfoldable pub init : Env → Act Unit
init env = do
  table ← gets (λ w. w.lookup_table)
  elim (resolve env.inet_pton table) [
    | none ↦ exit 1
    | some table' ↦ modify (λ w. record w { lookup_table = table' })
  ]

-- `AddressBook_lookup`: the result and what `*address` then holds.
unfoldable pub lookup : List Address → Text → Address → LookupResult × Address
lookup [] name address = (address_unknown, address)
lookup (a ∷ table) name address =
    if same_text a.name name then (address_found, a) else lookup table name address

-- `AddressBook_reverseLookup`
unfoldable pub reverse_lookup : List Address → Text → Address → LookupResult × Address
reverse_lookup [] ip address = (address_reverse_lookup_failed, address)
reverse_lookup (a ∷ table) ip address =
    if same_text a.inet_address ip then (name_found, a) else reverse_lookup table ip address
