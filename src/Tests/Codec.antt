-- ===== src/Tests/Codec.antt =====
-- Options and packets that are written and read.
use internet_applications.Base.{
  ℕ, ◌≡◌, ◌≢◌, refl, none, some, [], ◌∷◌, Bytes, ok, out_of_fuel, arith, replicate, take, drop,
}
use internet_applications.Options.{get_dhcp_option, append_option, scan, value_at}
use internet_applications.Options.Scan.{tlv, get_dhcp_option_total}
use internet_applications.Options.Fill.{wrote, append_option-wrote, get_dhcp_option-wrote}

abbrev answer : Bytes
answer = 53 ∷ 1 ∷ 2 ∷ 51 ∷ 2 ∷ 9 ∷ 9 ∷ 0 ∷ []

get_dhcp_option_total_example : get_dhcp_option answer 54 none ≢ out_of_fuel
get_dhcp_option_total_example = get_dhcp_option_total answer 54 none

-- Option 51 stands at offset 3.
lease_time_found : get_dhcp_option answer 51 none ≡ ok (2, some 5)
unfolding get_dhcp_option scan value_at
lease_time_found = refl

append_option-wrote_example :
    append_option (wrote (tlv 53 (2 ∷ []) ∷ []) (replicate 8 1)) 51 (9 ∷ 9 ∷ [])
    ≡ ok (wrote (tlv 53 (2 ∷ []) ∷ tlv 51 (9 ∷ 9 ∷ []) ∷ []) (replicate 8 1))
append_option-wrote_example =
    append_option-wrote (tlv 53 (2 ∷ []) ∷ []) (replicate 8 1) 51 (9 ∷ 9 ∷ []) (omega arith)
      (omega arith) (omega arith)

get_dhcp_option-wrote_example :
    let b = (wrote (tlv 53 (2 ∷ []) ∷ tlv 51 (9 ∷ 8 ∷ []) ∷ []) (replicate 8 1)).0 in
    (p : ℕ) × (get_dhcp_option b 51 none ≡ ok (2, some p)) × (take 2 (drop p b) ≡ 9 ∷ 8 ∷ [])
get_dhcp_option-wrote_example =
    get_dhcp_option-wrote (tlv 53 (2 ∷ []) ∷ tlv 51 (9 ∷ 8 ∷ []) ∷ []) (replicate 8 1) (9 ∷ 8 ∷ [])
      51 none (omega arith) (omega arith, (omega arith, tt)) refl
