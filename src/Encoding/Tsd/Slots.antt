-- ===== src/Encoding/Tsd/Slots.antt =====
-- A time series slot by slot: how the stores of points use the encoder and the decoder.
use lindb.Base.{
  ℕ, zero, suc, ◌+◌, ◌^◌, ◌<◌, ◌≡◌, refl, sym, arith, Bool, true, false, List, [], ◌∷◌, ◌++◌,
  Option, none, some, length, append-nil,
}
use mathlib.Core.Option
use lindb.Bit.{Error}
use lindb.Bit.Writes.{IsHeld}
use lindb.Encoding.Xor.Code.{Wrote, Wrote-bit, Wrote-trans, code, write-Wrote}
use lindb.Encoding.Tsd.{TsdEncoder, append_time, append_value, TsdDecoder, next, has_value, value}

-- A slot with its value, if it has one.
unfoldable pub append_slot : Option ℕ → TsdEncoder → TsdEncoder
append_slot none e = append_time false e
append_slot (some v) e = append_value v (append_time true e)

unfoldable pub append_slots : List (Option ℕ) → TsdEncoder → TsdEncoder
append_slots [] e = e
append_slots (s ∷ ss) e = append_slots ss (append_slot s e)

-- `for d.Error() == nil && d.Next() { if d.HasValue() { d.Value() } }`, with the slots that it sees.
-- The outer `none` is a panic, or more rounds than the fuel; `rest` is the loop on the other slots.
abbrev Loop : Type 0
Loop = TsdDecoder → Option (List (Option ℕ))

unfoldable pub with_read : Loop → Option (ℕ × TsdDecoder) → Option (List (Option ℕ))
with_read rest none = none
with_read rest (some (v, d)) = Option.map (λ ss. some v ∷ ss) (rest d)

unfoldable pub with_slot : Loop → Bool × TsdDecoder → Option (List (Option ℕ))
unfolding with_read
with_slot rest (false, d) = Option.map (λ ss. none ∷ ss) (rest d)
with_slot rest (true, d) = with_read rest (value d)

unfoldable pub with_next : Loop → Bool × TsdDecoder → Option (List (Option ℕ))
unfolding with_slot
with_next rest (false, d) = some []
with_next rest (true, d) = with_slot rest (has_value d)

unfoldable pub unless_error : Option Error → Option (List (Option ℕ)) → Option (List (Option ℕ))
unless_error (some e) r = some []
unless_error none r = r

unfoldable pub read_slots : ℕ → TsdDecoder → Option (List (Option ℕ))
unfolding with_next unless_error
read_slots zero d = none
read_slots (suc rounds) d = unless_error d.err (with_next (read_slots rounds) (next d))

unfoldable pub slot_code : Option ℕ → TsdEncoder → List Bool
slot_code none e = false ∷ []
slot_code (some v) e = true ∷ code v (append_time true e).values

unfoldable pub slots_code : List (Option ℕ) → TsdEncoder → List Bool
slots_code [] e = []
slots_code (s ∷ ss) e = slot_code s e ++ slots_code ss (append_slot s e)

append_slot-Wrote :
    (s : Option ℕ) (e : TsdEncoder)
    → IsHeld e.values.bw
    → Wrote e.values.bw (append_slot s e).values.bw (slot_code s e)
unfolding append_slot append_time append_value slot_code
append_slot-Wrote none e h = Wrote-bit false e.values.bw h
append_slot-Wrote (some v) e h =
    let b = Wrote-bit true e.values.bw h in
    Wrote-trans b (write-Wrote v (append_time true e).values b.held)

pub append_slots-Wrote :
    (ss : List (Option ℕ)) (e : TsdEncoder)
    → IsHeld e.values.bw
    → Wrote e.values.bw (append_slots ss e).values.bw (slots_code ss e)
unfolding append_slots slots_code
append_slots-Wrote [] e h = record { bits_lem = sym (append-nil _); held = h }
append_slots-Wrote (s ∷ ss) e h =
    let a = append_slot-Wrote s e h in
    Wrote-trans a (append_slots-Wrote ss (append_slot s e) a.held)

pub count-append_slots :
    (ss : List (Option ℕ)) (e : TsdEncoder)
    → e.count + length ss < 2 ^ 64
    → ((append_slots ss e).count ≡ e.count + length ss)
      × ((append_slots ss e).start_time ≡ e.start_time)
unfolding append_slots append_slot append_time append_value
count-append_slots [] e h = (omega arith, refl)
count-append_slots (none ∷ ss) e h =
    let (c, s) = count-append_slots ss (append_slot none e) (omega arith) in (omega (arith, c), s)
count-append_slots (some v ∷ ss) e h =
    let (c, s) = count-append_slots ss (append_slot (some v) e) (omega arith) in
    (omega (arith, c), s)
