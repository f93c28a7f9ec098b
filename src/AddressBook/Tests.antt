-- ===== src/AddressBook/Tests.antt =====
-- The table of src/addressbook.c looked up, and the theorems about it at that table.
use bbg_vo_ip.Prelude.{◌≡◌, ◌≢◌, refl, [], Text, codes, same_text, ne_of_same_text, false}
use bbg_vo_ip.World.{Address}
use bbg_vo_ip.AddressBook.{
  lookup_table, lookup, reverse_lookup, address_found, name_found, address_unknown,
}
use bbg_vo_ip.AddressBook.Lookup.{Distinct, reverse_lookup-lookup}

abbrev blank : Address
blank = record { name = []; inet_address = []; in_addr = 0 }

abbrev bryce : Address
bryce = record { name = codes "bryce"; inet_address = codes "10.0.0.30"; in_addr = 0 }

lookup-bryce : lookup lookup_table (codes "bryce") blank ≡ (address_found, bryce)
unfolding lookup same_text
lookup-bryce = refl

lookup_nobody : lookup lookup_table (codes "nobody") blank ≡ (address_unknown, blank)
unfolding lookup same_text
lookup_nobody = refl

lookup_table-Distinct : Distinct lookup_table
unfolding same_text
lookup_table-Distinct = (
  (differ _ _ refl, (differ _ _ refl, (differ _ _ refl, tt))),
  ((differ _ _ refl, (differ _ _ refl, tt)), ((differ _ _ refl, tt), (tt, tt))),
)
  where
    differ : (s t : Text) → same_text s t ≡ false → s ≢ t
    differ = ne_of_same_text

reverse_lookup-lookup_example :
    reverse_lookup lookup_table (codes "10.0.0.30") blank ≡ (name_found, bryce)
reverse_lookup-lookup_example =
    reverse_lookup-lookup lookup_table (codes "bryce") blank blank bryce lookup_table-Distinct
      lookup-bryce
