-- ===== src/Packet/Moves.antt =====
-- The moves of a `Packet` in memory move its value, and destroy each string and vector once.
use libcody.Prelude.{ℕ, Bool, true, ◌&&◌, List, Option, none, some, ◌≡◌, refl, Bytes, ◌>>=◌}
use libcody.Packet.{Payload, integer, string, vector, Packet}
use libcody.Packet.Storage.{
  Category, is_integer, is_string, is_vector, Slot, Leftovers, destroy, is_free, move_construct,
  move_assign, self_assign,
}

abbrev pub category : Payload → Category
category (integer n) = is_integer
category (string s) = is_string
category (vector v) = is_vector

-- A packet in memory, by its value.
abbrev pub slot : Packet → Slot
slot p = record {
  cell = some p.payload;
  cat = category p.payload;
  code = p.code;
  request = p.request;
}

-- What a move leaves of a payload.
abbrev pub left_of : Leftovers → Payload → Payload
left_of left (integer n) = integer n
left_of left (string s) = string (left.of_string s)
left_of left (vector v) = vector (left.of_vector v)

abbrev pub moved_from : Leftovers → Packet → Packet
moved_from left p = record p { payload = left_of left p.payload }

-- The end of the lives of two packets: whether no string and no vector is left.
abbrev pub destroy_both : Slot × Slot → Option Bool
destroy_both (s, t) = do s' ← destroy s; t' ← destroy t; some (is_free s'.cell && is_free t'.cell)

slots_end :
    (p q : Payload) (a b : Packet)
    → destroy_both (slot (record a { payload = p }), slot (record b { payload = q })) ≡ some true
unfolding destroy
slots_end (integer n) (integer m) a b = refl
slots_end (integer n) (string t) a b = refl
slots_end (integer n) (vector w) a b = refl
slots_end (string s) (integer m) a b = refl
slots_end (string s) (string t) a b = refl
slots_end (string s) (vector w) a b = refl
slots_end (vector v) (integer m) a b = refl
slots_end (vector v) (string t) a b = refl
slots_end (vector v) (vector w) a b = refl

module _ (left : Leftovers) where
  constructed :
      (q : Payload) (b : Packet)
      → move_construct left (slot (record b { payload = q }))
        ≡ some (slot (record b { payload = q }), slot (moved_from left (record b { payload = q })))
  unfolding move_construct
  constructed (integer m) b = refl
  constructed (string t) b = refl
  constructed (vector w) b = refl

  assigned :
      (p q : Payload) (a b : Packet)
      → move_assign left (slot (record a { payload = p })) (slot (record b { payload = q }))
        ≡ some (slot (record b { payload = q }), slot (moved_from left (record b { payload = q })))
  unfolding move_assign
  assigned (integer n) (integer m) a b = refl
  assigned (integer n) (string t) a b = refl
  assigned (integer n) (vector w) a b = refl
  assigned (string s) (integer m) a b = refl
  assigned (string s) (string t) a b = refl
  assigned (string s) (vector w) a b = refl
  assigned (vector v) (integer m) a b = refl
  assigned (vector v) (string t) a b = refl
  assigned (vector v) (vector w) a b = refl

  -- The move constructor and the assignment from another packet give the value of that packet,
  -- whatever the payloads are, and leave the other packet with its codes and a payload of the same
  -- kind. Then both packets are destroyed with no string and no vector left over.
  pub moves :
      (p q : Packet)
      → (move_construct left (slot q) ≡ some (slot q, slot (moved_from left q)))
        × (move_assign left (slot p) (slot q) ≡ some (slot q, slot (moved_from left q)))
        × (destroy_both (slot q, slot (moved_from left q)) ≡ some true)
  moves p q = (
    constructed q.payload q,
    assigned p.payload q.payload p q,
    slots_end q.payload (left_of left q.payload) q q,
  )

  -- The assignment of a packet to itself is undefined if it has a string or a vector, which is taken
  -- from an object that is destroyed already, and changes nothing if it has an integer.
  pub self_assignment :
      (p : Packet)
      → ((n : ℕ) → p.payload ≡ integer n → self_assign left (slot p) ≡ some (slot p))
        × ((s : Bytes) → p.payload ≡ string s → self_assign left (slot p) ≡ none)
        × ((v : List Bytes) → p.payload ≡ vector v → self_assign left (slot p) ≡ none)
  unfolding self_assign
  self_assignment p = ((λ n e. rw e refl), (λ s e. rw e refl), (λ v e. rw e refl))
