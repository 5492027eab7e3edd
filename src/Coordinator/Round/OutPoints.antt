-- ===== src/Coordinator/Round/OutPoints.antt =====
-- The text `txid:vout` of an outpoint: `format!("{}:{}", ..)` and `parse_outpoint` of
-- coordinator/src/round/input_reg.rs.
pub mod RoundTrip
use blindjoin.Prelude.{
  ℕ, zero, suc, ◌+◌, ◌-◌, ◌*◌, ◌/◌, ◌%◌, ◌^◌, Bool, ◌&&◌, Option, none, some, [], ◌∷◌, ◌++◌, ltb,
  leb, if◌then◌else◌,
}
use blindjoin.Prelude.Eq.{◌==◌, nat_eq, Text}
use blindjoin.External.{External, OutPoint}

-- `Display` of a number: its decimal digits, before the digits that are there already. One unit of
-- fuel for each digit.
unfoldable pub show_digits : ℕ → ℕ → Text → Text
show_digits zero n acc = acc
show_digits (suc f) n acc =
    let rest = show_digits f (n / 10) ((48 + n % 10) ∷ acc) in
    if ltb n 10 then (48 + n) ∷ acc else rest

unfoldable pub decimal : ℕ → Text
unfolding show_digits
decimal n = show_digits (suc n) n []

abbrev pub is_digit : ℕ → Bool
is_digit c = leb 48 c && leb c 57

-- `from_str` of an unsigned number below `limit`, behind the sign: digits, with the value so far kept
-- in range.
unfoldable pub read_digits : ℕ → ℕ → Text → Option ℕ
read_digits limit acc [] = some acc
read_digits limit acc (c ∷ cs) =
    let next = acc * 10 + (c - 48) in
    let rest = read_digits limit next cs in if is_digit c && ltb next limit then rest else none

abbrev pub parse_unsigned : ℕ → Text → Option ℕ
parse_unsigned limit [] = none
parse_unsigned limit (c ∷ []) = if is_digit c then some (c - 48) else none
parse_unsigned limit (c ∷ d ∷ cs) =
    if c == b'+' then read_digits limit 0 (d ∷ cs) else read_digits limit 0 (c ∷ d ∷ cs)

unfoldable pub parse_u32 : Text → Option ℕ
parse_u32 s = parse_unsigned (2 ^ 32) s

-- `rsplitn(2, ':')`: what stands before and after the last colon.
unfoldable pub rsplit_colon : Text → Option (Text × Text)
rsplit_colon [] = none
rsplit_colon (c ∷ cs) = elim (rsplit_colon cs) [
  | some (head, tail) ↦ some (c ∷ head, tail)
  | none ↦ if c == b':' then some ([], cs) else none
]

module _ (x : External) where
  unfoldable pub outpoint_text : OutPoint → Text
  outpoint_text o = x.txid_text o.txid ++ (b':' ∷ decimal o.vout)

  -- Without a colon there is no second part, whatever the first part is.
  unfoldable pub parse_outpoint : Text → Option OutPoint
  parse_outpoint s = elim (rsplit_colon s) [
    | none ↦ none
    | some (txid_str, vout_str) ↦ elim (parse_u32 vout_str) [
      | none ↦ none
      | some vout ↦ elim (x.parse_txid txid_str) [
        | none ↦ none
        | some txid ↦ some (record { txid = txid; vout = vout })
      ]
    ]
  ]
