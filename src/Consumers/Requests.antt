-- ===== src/Consumers/Requests.antt =====
-- `CT002Request`, the phases and `_decode_request` of src/astrameter/ct002/ct002.py.
use astra_meter.Prelude.{
  ◌&&◌, leb, ℕ, Bool, ◌||◌, not, List, [], ◌∷◌, ◌++◌, Option, none, some, ltb, if◌then◌else◌,
  length, get_elem?,
}
use astra_meter.Prelude.Int.{ℤ, pos, eqb_ℤ}
use astra_meter.Prelude.Text.{Text, text, same, upper, lower, elem}
use astra_meter.Wire.Numbers.{decimal, is_space}
use astra_meter.Wire.Datagram.{is_reader_mac, parse_int, fields, refused, parse_request}

-- What `s.strip()` takes off: to `str.isspace` the four separators from 0x1c to 0x1f are spaces too,
-- as they are not to `int`.
unfoldable pub is_blank : ℕ → Bool
unfolding is_space
is_blank c = is_space c || leb 28 c && leb c 31

unfoldable pub skip_blanks : Text → Text
unfolding is_blank
skip_blanks [] = []
skip_blanks (c ∷ s) = let rest = skip_blanks s in if is_blank c then rest else c ∷ s

unfoldable pub strip_end : Text → Text
unfolding is_blank
strip_end [] = []
strip_end (c ∷ s) =
    let rest = strip_end s in
    elim rest [ [] ↦ if is_blank c then [] else c ∷ [] | d ∷ more ↦ c ∷ (d ∷ more) ]

unfoldable pub strip : Text → Text
unfolding strip_end skip_blanks
strip s = strip_end (skip_blanks s)

-- `phase in STEERED_PHASES`.
unfoldable pub is_steered : Text → Bool
is_steered phase = elem phase (text "A" ∷ text "B" ∷ text "C" ∷ text "D" ∷ [])

unfoldable pub normalize_phase : Text → Text
unfolding strip is_steered
normalize_phase raw = let phase = upper (strip raw) in if is_steered phase then phase else text "0"

pub record Request : Type 0 where
  pub meter_dev_type : Text
  pub meter_mac : Text
  pub ct_type : Text
  pub ct_mac : Text
  pub phase : Text
  pub power : ℤ
  pub participates : Bool
  pub addr : Text × ℕ

unfoldable pub field : List Text → ℕ → Text
field fs index = elim (get_elem? fs index) [ none ↦ [] | some f ↦ f ]

unfoldable pub from_fields : List Text → Text × ℕ → Request
unfolding field strip
from_fields fs addr =
    let participate = strip (field fs 6) in
    record {
      meter_dev_type = field fs 0;
      meter_mac = field fs 1;
      ct_type = field fs 2;
      ct_mac = field fs 3;
      phase = upper (strip (field fs 4));
      power = parse_int (field fs 5) (pos 0);
      participates = same participate [] || not (eqb_ℤ (parse_int participate (pos 1)) (pos 0));
      addr = addr;
    }

unfoldable pub consumer_id : Request → Text
consumer_id r = elim r.meter_mac [
  | [] ↦ r.addr.0 ++ (text ":" ++ decimal r.addr.1)
  | _ ∷ _ ↦ lower r.meter_mac
]

unfoldable pub in_inspection_mode : Request → Bool
unfolding is_steered
in_inspection_mode r = not (is_steered r.phase)

-- `_ct_mac_matches`, for the MAC that is configured, and the wildcard.
unfoldable pub ct_mac_matches : Text → Request → Bool
ct_mac_matches ct_mac r =
    same ct_mac [] || same r.ct_mac (text "000000000000") || same (lower r.ct_mac) ct_mac

-- `_decode_request`.
unfoldable pub decode_request : Text → Text → Text × ℕ → Option Request
unfolding from_fields ct_mac_matches
decode_request ct_mac datagram addr = elim (parse_request datagram) [
  | refused _ ↦ none
  | fields fs ↦
      let request = from_fields fs addr in
      if ltb (length fs) 4
      then none
      else if is_reader_mac request.meter_mac
      then none
      else if not (ct_mac_matches ct_mac request)
      then none
      else some request
]
