-- ===== src/Session/Told.antt =====
-- What a client is told, whether its calls come in order or not.
use libcody.Prelude.{
  Bool, List, [], ◌∷◌, ◌++◌, refl, arith, Bytes, codes, if◌then◌else◌, Bool-cases, inl, inr, All,
}
use libcody.Buffer.Words.{IsAscii}
use libcody.Buffer.Bare.{bare, quotable, are_bare-IsWord}
use libcody.Buffer.Message.{Word, IsLine, line_text}
use libcody.Packet.{Packet}
use libcody.Response.{error_packet}
use libcody.Session.{
  Call, promised, IsCall, AreCalls, in_order, connected_after, in_order-IsInOrder,
  connected_after_order, connected_after_refusal,
}
use libcody.Session.Ascii.{append-IsText, if-IsText}
use libcody.Session.Readable.{call-IsLine, answer-IsLine, are_below-IsAscii}
use libcody.Session.Written.{call_code, call_line, answer_line}
use libcody.Session.Packets.{Returns, refusal-Returns}
use libcody.Session.Calls.{call-Returns}
use libcody.Session.Quoted.{line_text-IsText}

-- The error for a call that is out of order quotes the line of its request.
abbrev pub refusal : Bool → Call → Bytes
refusal connected call =
    ((if connected then codes "already connected '" else codes "not connected '")
      ++ line_text (call_line call))
    ++ b'\'' ∷ []

-- The packet that a call gives.
abbrev pub told : (Bytes → Bool) → Bool → Call → Packet
told is_regular connected call =
    if in_order connected call
    then promised is_regular call
    else error_packet (refusal connected call)

abbrev pub all_told : (Bytes → Bool) → Bool → List Call → List Packet
all_told is_regular connected [] = []
all_told is_regular connected (call ∷ calls) =
    told is_regular connected call ∷ all_told is_regular (connected_after connected call) calls

abbrev pub refusal_line : Bool → Call → List Word
refusal_line connected call = bare (codes "ERROR") ∷ quotable (refusal connected call) ∷ []

-- The line that the server answers, and the lines for a message of calls.
abbrev pub reply_line : (Bytes → Bool) → Bool → Call → List Word
reply_line is_regular connected call =
    if in_order connected call then answer_line is_regular call else refusal_line connected call

abbrev pub answers : (Bytes → Bool) → Bool → List Call → List (List Word)
answers is_regular connected [] = []
answers is_regular connected (call ∷ calls) =
    reply_line is_regular connected call ∷ answers is_regular (connected_after connected call) calls

pub told-Returns :
    (is_regular : Bytes → Bool) (connected : Bool) (call : Call)
    → IsCall call
    → Returns
        (call_code call)
        connected
        (connected_after connected call)
        (reply_line is_regular connected call)
        (told is_regular connected call)
told-Returns is_regular connected call h = elim (Bool-cases (in_order connected call)) [
  | inl e ↦
      rw (e, connected_after_order connected call e)
        (call-Returns is_regular connected call (in_order-IsInOrder connected call e h))
  | inr e ↦
      rw (e, connected_after_refusal connected call e)
        (refusal-Returns (call_code call) connected (refusal connected call))
]

refusal-IsAscii :
    (connected : Bool) (call : Call) → IsCall call → All IsAscii (refusal connected call)
refusal-IsAscii connected call h =
    append-IsText _ (b'\'' ∷ [])
      (append-IsText _ (line_text (call_line call))
        (if-IsText connected (codes "already connected '") (codes "not connected '")
          (are_below-IsAscii (codes "already connected '") refl)
          (are_below-IsAscii (codes "not connected '") refl))
        (line_text-IsText (call_line call) (call-IsLine call h)))
      (omega arith, tt)

refusal_line-IsLine :
    (connected : Bool) (call : Call) → IsCall call → IsLine (refusal_line connected call)
refusal_line-IsLine connected call h = (
  λ p. cc,
  (are_bare-IsWord (codes "ERROR") (λ p. cc) refl, (refusal-IsAscii connected call h, tt)),
)

pub reply_line-IsLine :
    (is_regular : Bytes → Bool) (connected : Bool) (call : Call)
    → IsCall call
    → IsLine (reply_line is_regular connected call)
reply_line-IsLine is_regular connected call h = elim (Bool-cases (in_order connected call)) [
  | inl e ↦ rw e (answer-IsLine is_regular call h)
  | inr e ↦ rw e (refusal_line-IsLine connected call h)
]

pub answers-IsLine :
    (is_regular : Bytes → Bool) (connected : Bool) (calls : List Call)
    → AreCalls calls
    → All IsLine (answers is_regular connected calls)
answers-IsLine is_regular connected [] h = tt
answers-IsLine is_regular connected (call ∷ calls) (h, hs) = (
  reply_line-IsLine is_regular connected call h,
  answers-IsLine is_regular (connected_after connected call) calls hs,
)
