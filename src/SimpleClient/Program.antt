-- ===== src/SimpleClient/Program.antt =====
-- `main` of simple-dhcp-client.c from its arguments on. What `ioctl` and `pcap_open_live` give is a parameter.
use Prim.Native.String.{String, len}
use internet_applications.Base.{
  suc, ◌≤◌, ◌<◌, ◌≡◌, refl, true, false, Bool, not, ◌||◌, Option, none, some, List, [], ◌∷◌, ◌++◌,
  Bytes, Run, ok, fault, ◌>>=◌, is_zero, ltb, lt→ltb, if◌then◌else◌, length, length-append,
  length-drop, drop, ℤ, pos, negsuc, arith,
}
use text.Mathlib.Text.{◌==◌ as str_eq}
use internet_applications.Words.{at}
use internet_applications.Startup.{second}
use internet_applications.SimpleClient.Input.{Frame, main}
use internet_applications.SimpleClient.Input.Accepted.{Readable, Ignored, accepts, main_prints}

-- The result, and the array `mac` with what lies behind it. `hwaddr` is what `ioctl` gives; the name is copied
-- into 16 bytes.
unfoldable pub get_mac_address :
    (hwaddr : Option Bytes) (dev_name : String) (mac : Bytes) → Run (ℤ × Bytes)
get_mac_address hwaddr dev_name mac =
    if ltb (len dev_name) 16
    then elim hwaddr [ none ↦ ok (negsuc 0, mac) | some a ↦ ok (pos 0, a ++ drop 6 mac) ]
    else fault

-- What `main` returns, and the address that it prints. `packet` is the array of `dhcp_discovery`, `mac` that of
-- `main` with what lies behind it.
unfoldable pub program :
    (argv : List String) (hwaddr : Option Bytes) (opens : Bool) (packet mac : Bytes)
    (frames : List Frame)
    → Run (ℤ × Option Bytes)
program argv hwaddr opens packet mac frames =
    if ltb (length argv) 2 || str_eq (second argv) "-h" then ok (pos 0, none) else do
      (result, mac') ← get_mac_address hwaddr (second argv) mac
      if not (is_zero result)
          then ok (negsuc 0, none)
          else if not opens
          then ok (negsuc 0, none)
          else do printed ← main packet mac' frames; ok (pos 0, some printed)

-- Run with the name of an interface, of at most 15 bytes, that has a hardware address and can be opened, the
-- client returns 0 and prints the address that the first frame offers which is taken for an offer, if ten
-- bytes behind the six of its array for the hardware address can be read, and these frames, up to that one,
-- were captured whole and reach to the end of the address.
pub program_prints :
    (name dev : String) (rest : List String) (a packet mac : Bytes) (fs gs : List Frame)
    (frame : Frame)
    → str_eq dev "-h" ≡ false
    → len dev < 16
    → length a ≡ 6
    → 300 ≤ length packet
    → 16 ≤ length mac
    → Ignored fs
    → Readable frame
    → accepts frame.captured ≡ true
    → let f = frame.captured in
      program (name ∷ dev ∷ rest) (some a) true packet mac (fs ++ frame ∷ gs)
      ≡ ok (pos 0, some (at f 58 ∷ at f 59 ∷ at f 60 ∷ at f 61 ∷ []))
unfolding program get_mac_address
program_prints name dev rest a packet mac fs gs frame asks short six room readable ignored h hit =
    let size : 16 ≤ length (a ++ drop 6 mac) =
      omega (arith, length-append a (drop 6 mac), length-drop 6 mac) in
    let given : ltb (suc (suc (length rest))) 2 ≡ false = ground arith in
    rw
      (
        asks,
        given,
        lt→ltb (len dev) 16 short,
        main_prints packet (a ++ drop 6 mac) fs gs frame room size ignored h hit,
      )
      refl
