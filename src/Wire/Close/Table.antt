-- ===== src/Wire/Close/Table.antt =====
-- The close table names the same reason on both transports, and no other close names one.
use capri_hub.Common.{
  ℕ, zero, suc, ◌+◌, ap₂, ◌&&◌, List, [], ◌∷◌, get_elem?, get_elem?-lt, drop, ◌≡◌, refl, true,
  false, Option, none, some, if◌then◌else◌, Bool-cases, inl, inr, arith, ◌==◌,
}
use capri_hub.Common.Words.{Bytes}
use capri_hub.Common.Text.{codes, bytes_eq, bytes_eq_iff}
use capri_hub.Wire.Close.{
  CloseReason, CloseRow, close_table, close_normal, find_ws, find_quic, valid_reason, ws_close,
  quic_code, reason_from_ws, reason_from_quic,
}

abbrev FromBoth : CloseReason → Option CloseReason → Type 0
FromBoth r found =
    (let (code, reason) = ws_close r in reason_from_ws code reason ≡ found)
    × (reason_from_quic (quic_code r) ≡ found)

valid_FromBoth : (r : CloseReason) → valid_reason r ≡ true → FromBoth r (some r)
unfolding ws_close quic_code reason_from_ws reason_from_quic find_ws find_quic close_table bytes_eq
valid_FromBoth (suc zero) v = (refl, refl)
valid_FromBoth (suc (suc zero)) v = (refl, refl)
valid_FromBoth (suc (suc (suc zero))) v = (refl, refl)
valid_FromBoth (suc (suc (suc (suc zero)))) v = (refl, refl)
valid_FromBoth (suc (suc (suc (suc (suc zero))))) v = (refl, refl)
valid_FromBoth (suc (suc (suc (suc (suc (suc zero)))))) v = (refl, refl)
valid_FromBoth (suc (suc (suc (suc (suc (suc (suc zero))))))) v = (refl, refl)
valid_FromBoth (suc (suc (suc (suc (suc (suc (suc (suc zero)))))))) v = (refl, refl)
valid_FromBoth r v = absurd (ground arith)

invalid_FromBoth : (r : CloseReason) → valid_reason r ≡ false → FromBoth r none
invalid_FromBoth r v =
    let pair : ws_close r ≡ (1011, codes "invalid reason") = unfold ws_close in rw v in
    let code : quic_code r ≡ 1 = unfold quic_code in rw v in rw (pair, code) unreadable_pair
  where
    unreadable_pair :
        (reason_from_ws 1011 (codes "invalid reason") ≡ none) × (reason_from_quic 1 ≡ none)
    unreadable_pair =
        unfold reason_from_ws reason_from_quic find_ws find_quic close_table bytes_eq in
        (refl, refl)

-- The peer reads every valid close reason back, from the WebSocket pair and from the QUIC code
-- alike; what an invalid reason is sent as reads as no reason on either transport.
reason_round_trip :
    (r : CloseReason)
    → (let (code, reason) = ws_close r in
        reason_from_ws code reason ≡ (if valid_reason r then some r else none))
      × (reason_from_quic (quic_code r) ≡ (if valid_reason r then some r else none))
reason_round_trip r = elim (Bool-cases (valid_reason r)) [
  | inl v ↦ rw v (valid_FromBoth r v)
  | inr v ↦ rw v (invalid_FromBoth r v)
]

-- What the loops find is a row of the list.
find_ws-row :
    (rows : List CloseRow) (i r : CloseReason) (code : ℕ) (text : Bytes)
    → find_ws rows i code text ≡ some r
    → (k : ℕ) × (c : CloseRow) × (r ≡ i + k)
      × (get_elem? rows k ≡ some c)
      × (c.ws_code ≡ code)
      × (c.ws_reason ≡ text)
unfolding find_ws
find_ws-row [] i r code text e = cc
find_ws-row (c ∷ rows) i r code text e =
    elim (Bool-cases ((c.ws_code == code) && bytes_eq c.ws_reason text)) [
      | inl hit ↦
          (0, c, ground arith, refl, ground arith, (bytes_eq_iff c.ws_reason text).0 (ground arith))
      | inr miss ↦
          let (k, d, at, there, codes_eq, texts_eq) =
            find_ws-row rows (suc i) r code text (rw miss at e) in
          (suc k, d, omega arith, there, codes_eq, texts_eq)
    ]

find_quic-row :
    (rows : List CloseRow) (i r : CloseReason) (code : ℕ)
    → find_quic rows i code ≡ some r
    → (k : ℕ) × (c : CloseRow) × (r ≡ i + k) × (get_elem? rows k ≡ some c) × (c.quic ≡ code)
unfolding find_quic
find_quic-row [] i r code e = cc
find_quic-row (c ∷ rows) i r code e = elim (Bool-cases (c.quic == code)) [
  | inl hit ↦ (0, c, ground arith, refl, ground arith)
  | inr miss ↦
      let (k, d, at, there, codes_eq) = find_quic-row rows (suc i) r code (rw miss at e) in
      (suc k, d, omega arith, there, codes_eq)
]

-- The row behind the zero row of the table, at an index that is a valid reason.
table_row :
    (k : ℕ) (c : CloseRow) (r : CloseReason)
    → r ≡ close_normal + k
    → get_elem? (drop 1 close_table) k ≡ some c
    → (valid_reason r ≡ true) × (get_elem? close_table r ≡ some c)
unfolding close_table
table_row k c r e there =
    let inside = get_elem?-lt k (drop 1 close_table) there in
    let same : r ≡ suc k = omega arith in (ground arith, rw same there)

reason_from_sound :
    (code : ℕ) (text : Bytes) (r : CloseReason)
    → (reason_from_ws code text ≡ some r → (valid_reason r ≡ true) × (ws_close r ≡ (code, text)))
      × (reason_from_quic code ≡ some r → (valid_reason r ≡ true) × (quic_code r ≡ code))
unfolding reason_from_ws reason_from_quic ws_close quic_code
reason_from_sound code text r = (
  λ e.
      let (k, c, at, there, codes_eq, texts_eq) =
        find_ws-row (drop 1 close_table) close_normal r code text e in
      let (valid, row) = table_row k c r at there in
      (valid, rw (valid, row) (ap₂ (λ a b. (a, b)) codes_eq texts_eq)),
  λ e.
      let (k, c, at, there, codes_eq) = find_quic-row (drop 1 close_table) close_normal r code e in
      let (valid, row) = table_row k c r at there in (valid, rw (valid, row) codes_eq),
)

-- A WebSocket close that reads as a reason is the pair that this reason, a valid one, is sent as.
reason_from_ws_lem :
    (code : ℕ) (text : Bytes) (r : CloseReason)
    → reason_from_ws code text ≡ some r
    → (valid_reason r ≡ true) × (ws_close r ≡ (code, text))
reason_from_ws_lem code text r e = (reason_from_sound code text r).0 e

-- A QUIC close that reads as a reason is the code that this reason, a valid one, is sent as.
reason_from_quic_lem :
    (code : ℕ) (r : CloseReason)
    → reason_from_quic code ≡ some r
    → (valid_reason r ≡ true) × (quic_code r ≡ code)
reason_from_quic_lem code r e = (reason_from_sound code [] r).1 e
