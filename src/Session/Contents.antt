-- ===== src/Session/Contents.antt =====
-- What a fragment does to the packets that are still to come, when ConsumeDataFrameLocked
-- (nerfnet/net/radio_interface.cc) takes it.
use n_rf24_module.Prelude.{
  ℕ, ◌≤◌, ◌<◌, ◌≡◌, ◌⊎◌, inl, inr, refl, sym, ap, ◌∙◌, List, [], ◌∷◌, ◌++◌, arith, append_assoc,
  length, take, drop, min, Bool-cases, take-append-drop, length-take, length-drop, drop_all,
  take_all, leb,
}
use n_rf24_module.Frame.{max_payload_size}
use n_rf24_module.Packet.Keep.{keep_ip, keep_ip-append}
use n_rf24_module.RadioInterface.Transmit.{get_transfer_size, consume_front}
use n_rf24_module.RadioInterface.Valid.{IsFragment}
use n_rf24_module.Session.Sync.{glue, Content, IsSettled}

pub glue_nil : (q : List (List ℕ)) → glue [] q ≡ q
glue_nil [] = refl
glue_nil (p ∷ q) = refl

pub IsSettled-nil : (q : List (List ℕ)) → IsSettled [] q
IsSettled-nil [] = refl
IsSettled-nil (p ∷ q) = tt

consume_front_all :
    (f : List ℕ) (q : List (List ℕ)) (n : ℕ) → length f ≤ n → consume_front n (f ∷ q) ≡ q
consume_front_all f q n h = ground (arith, drop_all (min (length f) n) f)

consume_front_part :
    (f : List ℕ) (q : List (List ℕ)) (n : ℕ) → n < length f → consume_front n (f ∷ q) ≡ drop n f ∷ q
consume_front_part f q n h =
    let e : min (length f) n ≡ n = omega arith in rw e (ground (arith, length-drop n f))

fragment_whole : (f : List ℕ) → length f ≤ max_payload_size → take (get_transfer_size f) f ≡ f
fragment_whole f h = take_all (get_transfer_size f) f (omega arith)

fragment_part :
    (f : List ℕ)
    → max_payload_size < length f
    → take (get_transfer_size f) f ≡ take max_payload_size f
fragment_part f h =
    let e : get_transfer_size f ≡ max_payload_size = omega arith in ap (λ n. take n f) e

module _ (f : List ℕ) (q : List (List ℕ)) (buffer : List ℕ) (written accepted : List (List ℕ))
    (c : written ++ keep_ip ((buffer ++ f) ∷ q) ≡ keep_ip accepted) where
  Content-whole :
      length f ≤ max_payload_size
      → Content []
          (consume_front (length f) (f ∷ q))
          (written ++ keep_ip ((buffer ++ f) ∷ []))
          accepted
  Content-whole short = rw (consume_front_all f q (length f) (omega arith)) (
    IsSettled-nil q,
    rw (glue_nil q) (
        append_assoc written (keep_ip ((buffer ++ f) ∷ [])) (keep_ip q)
        ∙ (ap (λ w. written ++ w) (sym (keep_ip-append ((buffer ++ f) ∷ []) q)) ∙ c)),
  )

  Content-part :
      (payload : List ℕ)
      → payload ≡ take max_payload_size f
      → max_payload_size < length f
      → Content (buffer ++ payload) (consume_front (length payload) (f ∷ q)) written accepted
  Content-part payload part long =
      let size : length payload ≡ max_payload_size =
        omega (arith, ap length part, length-take max_payload_size f) in
      let joined : payload ++ drop max_payload_size f ≡ f =
        ap (λ t. t ++ drop max_payload_size f) part ∙ take-append-drop max_payload_size f in
      rw (size, consume_front_part f q max_payload_size long)
        (
          tt,
          rw (append_assoc buffer payload (drop max_payload_size f))
              (ap (λ w. written ++ keep_ip ((buffer ++ w) ∷ q)) joined ∙ c),
        )

-- What a fragment does to the receiver: the last one of a packet completes it, any other one moves
-- its bytes over.
abbrev pub Received : List (List ℕ) → List ℕ → ℕ → List ℕ → List (List ℕ) → List (List ℕ) → Type 0
Received q payload left buffer written accepted =
    ((left ≤ max_payload_size)
      × Content [] (consume_front (length payload) q)
          (written ++ keep_ip ((buffer ++ payload) ∷ [])) accepted)
    ⊎ ((max_payload_size < left)
        × Content (buffer ++ payload) (consume_front (length payload) q) written accepted)

pub receive-Content :
    (q : List (List ℕ)) (payload : List ℕ) (left : ℕ) (buffer : List ℕ)
    (written accepted : List (List ℕ))
    → IsFragment q payload left
    → Content buffer q written accepted
    → Received q payload left buffer written accepted
receive-Content [] payload left buffer written accepted k c = absurd k
receive-Content (f ∷ q) payload left buffer written accepted k c =
    elim (Bool-cases (leb (length f) max_payload_size)) [
      | inl short ↦
          let fits : length f ≤ max_payload_size = ground arith in
          rw (k.0, fragment_whole f fits)
            (inl (omega (arith, k.1), Content-whole f q buffer written accepted c.1 fits))
      | inr more ↦
          let long : max_payload_size < length f = ground arith in
          inr (
            omega (arith, k.1),
            Content-part f q buffer written accepted c.1 payload (k.0 ∙ fragment_part f long) long,
          )
    ]
