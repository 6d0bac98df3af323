-- ===== src/Session/InOrder.antt =====
-- Sessions whose calls come in order: nothing is refused.
use libcody.Prelude.{Bool, true, false, List, [], ◌∷◌, ◌≡◌, refl, ap, Bytes, map}
use libcody.Status.{Status}
use libcody.Resolver.{default_resolver}
use libcody.Client.{Client, World}
use libcody.Session.{
  Call, greets, asks_repo, exports, imports, compiles, translates, invokes, run_calls, run_batch,
  corked_packet, promised, IsCall, IsInOrder, AreCalls, in_order, connected_by,
  connected_after_order,
}
use libcody.Session.Told.{all_told}
use libcody.Session.Whole.{IsIdle, Gives, run_calls-told}
use libcody.Session.Batch.{run_batch-told}

-- The first call of a session is `Connect`, and no other.
abbrev pub AreInOrder : Bool → List Call → Type 0
AreInOrder connected [] = Unit
AreInOrder connected (call ∷ calls) = IsInOrder connected call × AreInOrder true calls

IsInOrder-IsCall : (connected : Bool) (call : Call) → IsInOrder connected call → IsCall call
IsInOrder-IsCall false (greets agent ident) h = h
IsInOrder-IsCall true (greets agent ident) h = absurd h
IsInOrder-IsCall connected asks_repo h = tt
IsInOrder-IsCall true (exports name flags) h = h
IsInOrder-IsCall false (exports name flags) h = absurd h
IsInOrder-IsCall true (imports name flags) h = h
IsInOrder-IsCall false (imports name flags) h = absurd h
IsInOrder-IsCall true (compiles name flags) h = h
IsInOrder-IsCall false (compiles name flags) h = absurd h
IsInOrder-IsCall true (translates name flags) h = h
IsInOrder-IsCall false (translates name flags) h = absurd h
IsInOrder-IsCall true (invokes arg args) h = h
IsInOrder-IsCall false (invokes arg args) h = absurd h

AreInOrder-AreCalls :
    (connected : Bool) (calls : List Call) → AreInOrder connected calls → AreCalls calls
AreInOrder-AreCalls connected [] h = tt
AreInOrder-AreCalls connected (call ∷ calls) (h, hs) =
    (IsInOrder-IsCall connected call h, AreInOrder-AreCalls true calls hs)

IsInOrder-in_order :
    (connected : Bool) (call : Call) → IsInOrder connected call → in_order connected call ≡ true
IsInOrder-in_order false (greets agent ident) h = refl
IsInOrder-in_order true (greets agent ident) h = absurd h
IsInOrder-in_order true asks_repo h = refl
IsInOrder-in_order false asks_repo h = absurd h
IsInOrder-in_order true (exports name flags) h = refl
IsInOrder-in_order false (exports name flags) h = absurd h
IsInOrder-in_order true (imports name flags) h = refl
IsInOrder-in_order false (imports name flags) h = absurd h
IsInOrder-in_order true (compiles name flags) h = refl
IsInOrder-in_order false (compiles name flags) h = absurd h
IsInOrder-in_order true (translates name flags) h = refl
IsInOrder-in_order false (translates name flags) h = absurd h
IsInOrder-in_order true (invokes arg args) h = refl
IsInOrder-in_order false (invokes arg args) h = absurd h

module _ (is_regular : Bytes → Bool) where
  all_told-promised :
      (connected : Bool) (calls : List Call)
      → AreInOrder connected calls
      → all_told is_regular connected calls ≡ map (promised is_regular) calls
  all_told-promised connected [] h = refl
  all_told-promised connected (call ∷ calls) (h, hs) =
      let o = IsInOrder-in_order connected call h in
      let e = connected_after_order connected call o in
      rw (o, e) (ap (◌∷◌ (promised is_regular call)) (all_told-promised true calls hs))

  -- Every call of a session that is in order gives the packet that is promised for it.
  run_calls-promised :
      {R : Type 0} (strerror : Status → Bytes) (connected : Bool) (calls : List Call) (c : Client)
      (w : World R)
      → IsIdle connected c w
      → AreInOrder connected calls
      → Gives
          (run_calls (default_resolver is_regular) strerror calls c w)
          (map (promised is_regular) calls)
          (connected_by connected calls)
  run_calls-promised strerror connected calls c w i h =
      rw (all_told-promised connected calls h) at (
        run_calls-told is_regular strerror connected calls c w i
          (AreInOrder-AreCalls connected calls h))

  run_batch-promised :
      (R : Type 0) (strerror : Status → Bytes) (connected : Bool) (calls : List Call) (c : Client)
      (w : World R)
      → IsIdle connected c w
      → AreInOrder connected calls
      → Gives
          (run_batch (default_resolver is_regular) strerror calls c w)
          (map (λ call. corked_packet) calls, map (promised is_regular) calls)
          (connected_by connected calls)
  run_batch-promised R strerror connected calls c w i h =
      rw (all_told-promised connected calls h) at (
        run_batch-told R is_regular strerror connected calls c w i
          (AreInOrder-AreCalls connected calls h))
