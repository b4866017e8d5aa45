-- ===== src/Forward/Acl/Examples.antt =====
-- A list of one denied and one allowed network, with addresses as numbers and a network as the
-- numbers that start at the first byte of its text.
use go_port_forward.Base.{ℕ, ◌≡◌, refl, true, false, none, some, List, [], ◌∷◌, leb}
use go_port_forward.Base.Bytes.{bytes_eq}
use go_port_forward.Forward.Acl.{
  AclEntry, Net, scope_match, add_entry, compile_from, compile_acl, is_denied, scan_allows, decide,
  allowed,
}
use go_port_forward.Forward.Acl.Policy.{policy, allowed-policy}

abbrev up_from : Net ℕ ℕ
up_from = record {
  parse_cidr = λ text. elim text [ [] ↦ none | b ∷ bs ↦ some b ];
  contains = λ n ip. leb n ip;
  equal_fold = bytes_eq;
}

-- Everything from 200 up is denied; rule 5 allows what is from 100 up; one entry is no network.
abbrev entries : List AclEntry
entries =
    record { cidr = []; action = 100 ∷ 101 ∷ 110 ∷ 121 ∷ []; rule_id = [] }
    ∷ record { cidr = 100 ∷ []; action = 97 ∷ []; rule_id = 5 ∷ [] }
    ∷ record { cidr = 200 ∷ []; action = 100 ∷ 101 ∷ 110 ∷ 121 ∷ []; rule_id = [] }
    ∷ []

denied_high :
    allowed up_from (some (some (compile_acl up_from entries))) (5 ∷ []) (some 220) ≡ false
unfolding allowed decide compile_acl compile_from add_entry is_denied scan_allows scope_match
    bytes_eq
denied_high = refl

listed : allowed up_from (some (some (compile_acl up_from entries))) (5 ∷ []) (some 150) ≡ true
unfolding allowed decide compile_acl compile_from add_entry is_denied scan_allows scope_match
    bytes_eq
listed = refl

unlisted : allowed up_from (some (some (compile_acl up_from entries))) (5 ∷ []) (some 50) ≡ false
unfolding allowed decide compile_acl compile_from add_entry is_denied scan_allows scope_match
    bytes_eq
unlisted = refl

other_rule : allowed up_from (some (some (compile_acl up_from entries))) (6 ∷ []) (some 50) ≡ true
unfolding allowed decide compile_acl compile_from add_entry is_denied scan_allows scope_match
    bytes_eq
other_rule = refl

allowed-policy_example :
    allowed up_from (some (some (compile_acl up_from entries))) (5 ∷ []) (some 150)
    ≡ policy up_from (5 ∷ []) 150 entries
allowed-policy_example = allowed-policy up_from (5 ∷ []) 150 entries
