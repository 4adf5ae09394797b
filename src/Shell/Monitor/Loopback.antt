-- ===== src/Shell/Monitor/Loopback.antt =====
-- `monitor network` of oscdsh/src/monitor.c on /proc/net/dev as the kernel prints it.
use ostd_final.Common.{
  ℕ, zero, suc, ◌-◌, ◌≤◌, ◌<◌, ◌∙◌, ◌≡◌, ◌≢◌, refl, ap, true, false, not, some, List, [], ◌∷◌, ◌++◌,
  ◌==◌, leb, map, take, drop, length, length-append, replicate, All, arith,
}
use mathlib.Core.List.{append_assoc}
use ostd_final.Common.Exec.{ok}
use ostd_final.Common.Text.{Text, codes, str_eq}
use ostd_final.Shell.Monitor.Scan.{lines_from, lines_of, span, scan_unsigned}
use ostd_final.Shell.Monitor.Tables.{
  Interface, interface_of, interface_in, is_shown, interfaces, monitor_network,
}

-- a network device of the kernel, with the counters as it prints them
pub record NetDevice : Type 0 where
  pub name : Text
  pub counters : Text
  pub numbers : List ℕ

abbrev pub Without : ℕ → Text → Type 0
Without c [] = Unit {0}
Without c (d ∷ t) = (d ≢ c) × Without c t

-- the format `%6s`
abbrev pub padded : Text → Text
padded name = replicate (6 - length name) b' ' ++ name

abbrev pub device_line : NetDevice → Text
device_line d = padded d.name ++ b':' ∷ d.counters

-- a line that fits an array of 256 bytes with its newline and the NUL
abbrev pub IsLine : Text → Type 0
IsLine w = Without 10 w × (length w ≤ 254)

-- lines, each with its newline
abbrev pub file_of : List Text → Text
file_of [] = []
file_of (w ∷ ws) = w ++ 10 ∷ file_of ws

pub record IsNetDevice (d : NetDevice) : Type 0 where
  pub no_colon : Without b':' d.name
  pub short : length d.name ≤ 63
  pub fits : IsLine (device_line d)
  pub counted : scan_unsigned 12 (d.counters ++ 10 ∷ []) ≡ ok (some d.numbers)

abbrev pub listed_as : NetDevice → Interface
listed_as d = record {
  ifname = padded d.name;
  received = take 4 d.numbers;
  sent = take 4 (drop 8 d.numbers);
}

span-append :
    (w rest : Text)
    → Without b':' w
    → span (λ c. not (c == b':')) (w ++ b':' ∷ rest) ≡ (w, b':' ∷ rest)
unfolding span
span-append [] rest h = refl
span-append (c ∷ w) rest (other, h) =
    let here : (c == b':') ≡ false = ground (arith, other) in rw (here, span-append w rest h) refl

Without-padded : (n : ℕ) (w : Text) → Without b':' w → Without b':' (replicate n b' ' ++ w)
Without-padded zero w h = h
Without-padded (suc n) w h = (λ e. absurd (omega arith), Without-padded n w h)

length-replicate : (n c : ℕ) → length (replicate n c) ≡ n
length-replicate zero c = refl
length-replicate (suc n) c = ap suc (length-replicate n c)

length-padded :
    (name : Text) → (6 ≤ length (padded name)) × (length name ≤ 63 → length (padded name) ≤ 63)
length-padded name =
    let sum = length-append (replicate (6 - length name) b' ') name in
    let pad = length-replicate (6 - length name) b' ' in (omega arith, λ h. omega arith)

interface_of-named :
    (name counters : Text) (ns : List ℕ)
    → 6 ≤ length name
    → length name ≤ 63
    → scan_unsigned 12 counters ≡ ok (some ns)
    → (interface_of name (b':' ∷ counters)
        ≡ ok (some (record { ifname = name; received = take 4 ns; sent = take 4 (drop 8 ns) })))
      × (str_eq name (codes "lo") ≡ false)
unfolding str_eq
interface_of-named [] counters ns long short counted = absurd (omega arith)
interface_of-named (a ∷ []) counters ns long short counted = absurd (omega arith)
interface_of-named (a ∷ b ∷ []) counters ns long short counted = absurd (omega arith)
interface_of-named (a ∷ b ∷ c ∷ name) counters ns long short counted =
    let fits : leb 64 (length (a ∷ b ∷ c ∷ name)) ≡ false = ground arith in
    (rw (interface_of, fits, counted) refl, ground arith)

-- a line that fits is read whole
lines_from-line :
    (size room : ℕ) (open_line w rest : Text)
    → Without 10 w
    → length w < room
    → lines_from size room open_line (w ++ 10 ∷ rest)
      ≡ (open_line ++ (w ++ 10 ∷ [])) ∷ lines_from size size [] rest
unfolding lines_from
lines_from-line size room open_line [] rest h fits = refl
lines_from-line size room open_line (c ∷ w) rest (other, h) fits =
    let inner : (c == 10) ≡ false = ground (arith, other) in
    let more : leb room 1 ≡ false = ground arith in
    rw (inner, lines_from, more)
      (lines_from-line size (room - 1) (open_line ++ c ∷ []) w rest h (omega arith)
        ∙ ap (λ l. l ∷ lines_from size size [] rest)
            (append_assoc open_line (c ∷ []) (w ++ 10 ∷ [])))

lines_of-file_of :
    (ws : List Text) → All IsLine ws → lines_of 256 (file_of ws) ≡ map (λ w. w ++ 10 ∷ []) ws
unfolding lines_from
lines_of-file_of [] h = refl
lines_of-file_of (w ∷ ws) ((whole, short), hs) =
    lines_from-line 255 255 [] w (file_of ws) whole (omega arith)
    ∙ ap (λ ls. (w ++ 10 ∷ []) ∷ ls) (lines_of-file_of ws hs)

interface_in-device_line :
    (d : NetDevice)
    → IsNetDevice d
    → (interface_in (device_line d ++ 10 ∷ []) ≡ ok (some (listed_as d)))
      × (is_shown (some (listed_as d)) ≡ true)
unfolding interface_in
interface_in-device_line d h =
    let (long, short) = length-padded d.name in
    let (found, other) =
      interface_of-named (padded d.name) (d.counters ++ 10 ∷ []) d.numbers long (short h.short)
        h.counted in
    (
      rw
          (
            append_assoc (padded d.name) (b':' ∷ d.counters) (10 ∷ []),
            span-append (padded d.name) (d.counters ++ 10 ∷ [])
                (Without-padded (6 - length d.name) d.name h.no_colon),
          )
          found,
      rw other refl,
    )

interfaces-device_lines :
    (ds : List NetDevice)
    → All IsNetDevice ds
    → interfaces (map (λ w. w ++ 10 ∷ []) (map device_line ds)) ≡ ok (map listed_as ds)
unfolding interfaces
interfaces-device_lines [] h = refl
interfaces-device_lines (d ∷ ds) (h, hs) =
    let (found, shown) = interface_in-device_line d h in
    rw (found, interfaces-device_lines ds hs, shown) refl

All-device_line : (ds : List NetDevice) → All IsNetDevice ds → All IsLine (map device_line ds)
All-device_line [] h = tt
All-device_line (d ∷ ds) (h, hs) = (h.fits, All-device_line ds hs)

-- Where every line of /proc/net/dev has at most 254 bytes before its newline, and the lines behind the two
-- titles each have a name right-aligned in six columns, of at most 63 bytes and without `:`, then `:` and
-- at least twelve numbers below 2^64, `monitor network` returns 0 and lists all interfaces with their
-- counters, each name with the blanks in front of it; the loopback interface is not left out.
pub monitor_network-device_line :
    (title columns : Text) (ds : List NetDevice)
    → IsLine title
    → IsLine columns
    → All IsNetDevice ds
    → monitor_network (some (file_of (title ∷ columns ∷ map device_line ds)))
      ≡ ok (0, map listed_as ds)
unfolding monitor_network
monitor_network-device_line title columns ds first second h =
    rw
      (
        lines_of-file_of (title ∷ columns ∷ map device_line ds)
            (first, (second, All-device_line ds h)),
        interfaces-device_lines ds h,
      )
      refl
