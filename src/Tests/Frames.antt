-- ===== src/Tests/Frames.antt =====
-- Frames of the simple client, a file that is transferred, and words that are printed.
use internet_applications.Base.{
  true, pos, some, ℕ, ◌^◌, ◌≡◌, ◌<◌, refl, some, List, [], ◌∷◌, ◌++◌, Bytes, ok, length, arith,
  replicate,
}
use internet_applications.Words.{bytes16}
use internet_applications.SimpleClient.{dhcp_discovery}
use internet_applications.SimpleClient.Checksum.{in_cksum}
use internet_applications.SimpleClient.Checksum.Verify.{in_cksum_verifies}
use internet_applications.SimpleClient.Headers.{frame}
use internet_applications.SimpleClient.Frame.{dhcp_discovery-frame}
use internet_applications.SimpleClient.Input.{whole}
use internet_applications.SimpleClient.Input.Accepted.{Readable}
use internet_applications.Base.{◌≤◌, arith}
use internet_applications.Words.{AreBytes}
use internet_applications.SimpleClient.Program.{program, program_prints}
use internet_applications.Echo.{Act, Network, socket_failed, bind_failed, client_main, server_main}
use internet_applications.Echo.Printed.{stored, sends, sending, arriving, printing, echo_delivers}
use internet_applications.Words.{htons}
use internet_applications.Base.{negsuc, length}
use internet_applications.Tests.{ann}
use internet_applications.Tests.Composition.{all_bytes-AreBytes}

-- The two parts of an IP header around its checksum.
abbrev before : Bytes
before = 69 ∷ 0 ∷ 0 ∷ 28 ∷ 0 ∷ 0 ∷ 0 ∷ 0 ∷ 16 ∷ 17 ∷ []

abbrev behind : Bytes
behind = 192 ∷ 168 ∷ 0 ∷ 1 ∷ 255 ∷ 255 ∷ 255 ∷ 255 ∷ []

in_cksum_verifies_example :
    (c : ℕ) × (in_cksum (before ++ (bytes16 0 ++ behind)) ≡ ok c)
    × (c < 2 ^ 16)
    × (in_cksum (before ++ (bytes16 c ++ behind)) ≡ ok 0)
in_cksum_verifies_example =
    in_cksum_verifies before behind (all_bytes-AreBytes before refl)
      (all_bytes-AreBytes behind refl) refl (omega arith)

abbrev array : Bytes
array = replicate 4096 170

abbrev sixteen : Bytes
sixteen = ann ++ replicate 10 9

dhcp_discovery-frame_example :
    (dhcp_discovery array sixteen ≡ ok (frame sixteen)) × (length (frame sixteen) ≡ 300)
dhcp_discovery-frame_example = dhcp_discovery-frame array sixteen (omega arith) (omega arith)

-- An ARP frame, and an offer of 192.168.0.2.
abbrev arp : Bytes
arp = replicate 12 255 ++ 8 ∷ 6 ∷ replicate 48 0

abbrev reply : Bytes
reply =
    replicate 12 255
    ++ 8 ∷ 0 ∷ replicate 9 0
    ++ 17 ∷ replicate 10 0
    ++ 0 ∷ 67 ∷ replicate 6 0
    ++ 2 ∷ replicate 15 0
    ++ 192 ∷ 168 ∷ 0 ∷ 2 ∷ []

whole-Readable : (b : Bytes) → AreBytes b → 62 ≤ length b → Readable (whole b)
whole-Readable b h long = record { bytes = h; long = long; complete = omega arith }

program_prints_example :
    program
      ("client" ∷ "eth0" ∷ [])
      (some ann)
      true
      array
      sixteen
      ((whole arp ∷ []) ++ whole reply ∷ (whole arp ∷ []))
    ≡ ok (pos 0, some (192 ∷ 168 ∷ 0 ∷ 2 ∷ []))
program_prints_example =
    program_prints "client" "eth0" [] ann array sixteen (whole arp ∷ []) (whole arp ∷ [])
      (whole reply) refl (omega arith) refl (omega arith) (omega arith)
      ((whole-Readable arp (all_bytes-AreBytes arp refl) (omega arith), refl), tt)
      (whole-Readable reply (all_bytes-AreBytes reply refl) (omega arith)) refl

-- Two words, and a buffer without a zero.
abbrev words : List Bytes
words = (104 ∷ 105 ∷ []) ∷ [] ∷ []

-- Calls that fail.
abbrev broken : Network
broken = record {
  socket = negsuc 0;
  bind = λ sock addr port. negsuc 0;
  sendto = λ call word. negsuc 0;
  inet_addr = λ ip. length ip;
}

echo_delivers_example :
    (acts : List Act) × (client_main broken ((99 ∷ 0 ∷ []) ∷ (49 ∷ 0 ∷ []) ∷ stored words)
      ≡ ok (0, acts))
    × (sends acts ≡ sending (negsuc 0) 1 (htons 56325) words)
    × (server_main broken (arriving 7 9 acts) (replicate 255 65)
        ≡ ok (socket_failed ∷ bind_failed ∷ printing 7 9 words))
echo_delivers_example =
    echo_delivers broken broken (99 ∷ 0 ∷ []) (49 ∷ []) (104 ∷ 105 ∷ []) ([] ∷ []) 7 9
      (replicate 255 65) (omega arith, tt)
      (((omega arith, (omega arith, tt)), omega arith), ((tt, omega arith), tt)) refl
