-- ===== src/Peer/Handshaker/Process/Ends.antt =====
-- When `run` of bee-protocol/src/worker/peer/handshaker.rs ends.
use bee_p.Common.{
  ℕ, ◌≤◌, ◌<◌, ◌^◌, ◌%◌, ◌==◌, ◌≡◌, ◌≢◌, refl, sym, ◌∙◌, ◌⊎◌, inl, inr, Bool, true, false, Option,
  none, some, List, [], ◌∷◌, length, Result, ok, err, arith, Option-cases, Bool-cases, All, ◌>>=◌,
  ◌++◌,
}
use bee_p.Common.Assoc.{lookup, is_some}
use bee_p.Common.Bytes.{AreBytes}
use bee_p.Message.Header.{Header}
use bee_p.Message.Handshake
use bee_p.Message.Handshake.{Handshake, handshake, handshake-IsLawful}
use bee_p.Message.Tlv.{tlv_from_bytes, tlv_into_bytes}
use bee_p.Message.Tlv.RoundTrip.{
  tlv_from_bytes_answers, tlv_from_bytes-passes, tlv_into_bytes-layout,
}
use bee_p.Message.Version.{messages_supported_version, messages_versions}
use bee_p.Message.Version.Supported.{messages_supported_version_lem}
use bee_p.Peer.Manager
use bee_p.Peer.Reader.{ReadContext, fresh}
use bee_p.Peer.Reader.Total.{message_handler-some}
use bee_p.Peer.Reader.Keeps.{message_handler-keeps}
use bee_p.Peer.Handshaker.{
  Context, HandshakeStatus, done, duplicate, awaiting, validate_handshake, timestamp_diff,
}
use bee_p.Peer.Handshaker.Process.{
  Handshaker, process_message, wait, finish, run, Ending, spawned, disconnected, stopped,
  is_awaiting,
}
use bee_p.Peer.Handshaker.Process.Known.{IsKnown, handshaked, known, process_message-IsKnown}

timestamp_diff_answers : (now timestamp : ℕ) → timestamp_diff false now timestamp ≢ none
unfolding timestamp_diff
timestamp_diff_answers now timestamp e = ground arith

supported_answers :
    (versions : List ℕ)
    → AreBytes versions
    → 1 ≤ length versions
    → messages_supported_version versions ≢ none
supported_answers [] b l e = absurd (omega arith)
supported_answers (v ∷ versions) (b, _) l e = elim (messages_supported_version_lem v versions b) [
  | inl (_, f) ↦ cc (e, f)
  | inr (_, (w, f)) ↦ cc (e, f)
]

validate_handshake_answers :
    (c : Context) (status : HandshakeStatus)
    (peers : bee_p.Common.Assoc.Assoc Manager.HandshakedPeer) (h : Handshake)
    → c.overflow_checks ≡ false
    → AreBytes h.supported_versions
    → 1 ≤ length h.supported_versions
    → validate_handshake c status peers h ≢ none
unfolding validate_handshake
validate_handshake_answers c status peers h o b l e =
    ground
      (arith, timestamp_diff_answers c.now h.timestamp, supported_answers h.supported_versions b l)

-- A handshake that is read has at least one version.
handshake_versions :
    (h : Header) (bytes : List ℕ) (m : Handshake)
    → AreBytes bytes
    → tlv_from_bytes handshake h bytes ≡ some (ok m)
    → AreBytes m.supported_versions × (1 ≤ length m.supported_versions)
handshake_versions h bytes m b e =
    let (_, _, range, read) =
      tlv_from_bytes-passes handshake Handshake.IsValid Handshake.layout handshake-IsLawful h bytes
        m e in
    let (y, read', v, whole) = handshake-IsLawful.decodes bytes b range in
    let same : y ≡ m = cc (read, read') in
    let enough : 1 ≤ length y.supported_versions =
      (let here = rw (← whole) at range in ground (arith, Handshake.length-layout y v)) in
    (rw same at v.versions_bytes, rw same at enough)

process_message_answers :
    (c : Context)
    → c.overflow_checks ≡ false
    → (h : Header) (bytes : List ℕ) (w : Handshaker) → AreBytes bytes
    → process_message c h bytes w ≢ none
unfolding process_message
process_message_answers c o h bytes w b e = elim (Bool-cases (h.message_type == 1)) [
  | inr other ↦ ground arith
  | inl is_handshake ↦ elim (Option-cases (tlv_from_bytes handshake h bytes)) [
    | inl f ↦
        tlv_from_bytes_answers handshake Handshake.IsValid Handshake.layout handshake-IsLawful h
          bytes b f
    | inr (err error, f) ↦ ground arith
    | inr (ok m, f) ↦
        let (bs, l) = handshake_versions h bytes m b f in
        ground (arith, validate_handshake_answers c w.status w.manager.handshaked_peers m o bs l)
  ]
]

wait_answers :
    (c : Context) (context : ReadContext) (chunks : List (List ℕ)) (w : Handshaker)
    → c.overflow_checks ≡ false
    → AreBytes context.buffer
    → All AreBytes chunks
    → IsKnown c.peer.epid w
    → (w' : Handshaker) × (rest : List (List ℕ)) × (wait c context chunks w ≡ some (w', rest))
      × IsKnown c.peer.epid w'
unfolding wait
wait_answers c context [] w o b bs k = (w, [], refl, k)
wait_answers c context (chunk ∷ chunks) w o b (b', bs) k =
    let (context', w₁, e, b₁) =
      message_handler-some (process_message c) (process_message_answers c o) context chunk w b b' in
    let k₁ =
      message_handler-keeps (process_message c) (IsKnown c.peer.epid) (process_message-IsKnown c)
        context chunk w context' w₁ k e in
    elim (Bool-cases (is_awaiting w₁.status)) [
      | inl waits ↦
          let (w', rest, f, k') = wait_answers c context' chunks w₁ o b₁ bs k₁ in
          (w', rest, rw (e, waits) f, k')
      | inr stops ↦ (w₁, chunks, rw (e, stops), k₁)
    ]

-- What a configuration must hold for its handshake to be written.
pub record CanGreet (c : Context) : Type 0 where
  pub coordinator_length : length c.coordinator ≡ Handshake.coordinator_size
  pub coordinator_bytes : AreBytes c.coordinator
  pub mwm_byte : c.mwm < 2 ^ 8

greeting-IsValid :
    (c : Context)
    → CanGreet c
    → Handshake.IsValid (Handshake.new c.now 1337 c.coordinator c.mwm messages_versions)
unfolding Handshake.new
greeting-IsValid c g = record {
  port_word = omega arith;
  timestamp_word = omega arith;
  coordinator_length = g.coordinator_length;
  coordinator_bytes = g.coordinator_bytes;
  mwm_byte = g.mwm_byte;
  versions_bytes = omega arith;
}

greets :
    (c : Context)
    → CanGreet c
    → (bytes : List ℕ) × (tlv_into_bytes handshake
          (Handshake.new c.now 1337 c.coordinator c.mwm messages_versions)
        ≡ some bytes)
unfolding Handshake.new
greets c g =
    let v = greeting-IsValid c g in
    let m = Handshake.new c.now 1337 c.coordinator c.mwm messages_versions in
    (
      _,
      tlv_into_bytes-layout handshake Handshake.IsValid Handshake.layout handshake-IsLawful m v
          (ground (arith, Handshake.length-layout m v)),
    )

-- How the worker ends, by its status: on a handshake that is done, a `PeerWorker` is spawned for the
-- peer that the manager has for the id.
abbrev pub EndsBy : ℕ → Handshaker → Ending → Type 0
EndsBy epid w (spawned peer rest) =
    (w.status ≡ done) × (lookup epid w.manager.handshaked_peers ≡ some peer)
EndsBy epid w disconnected = w.status ≡ duplicate
EndsBy epid w stopped = w.status ≡ awaiting

found :
    (epid : ℕ) (w : Handshaker)
    → IsKnown epid w
    → w.status ≡ done
    → (peer : Manager.HandshakedPeer) × (lookup epid w.manager.handshaked_peers ≡ some peer)
found epid w (known _ n) d = absurd (n d)
found epid w (handshaked there) d = elim (Option-cases (lookup epid w.manager.handshaked_peers)) [
  | inl e ↦ absurd (ground arith)
  | inr (peer, e) ↦ (peer, e)
]

finish_answers :
    (c : Context) (w : Handshaker) (status : HandshakeStatus) (rest : List (List ℕ))
    → w.status ≡ status
    → IsKnown c.peer.epid w
    → (ending : Ending) × (finish c status w rest ≡ some (w, ending)) × EndsBy c.peer.epid w ending
finish_answers c w done rest s k =
    let (peer, e) = found c.peer.epid w k s in (spawned peer rest, rw e, (s, e))
finish_answers c w duplicate rest s k = (disconnected, refl, s)
finish_answers c w awaiting rest s k = (stopped, refl, s)

-- Where the build does not check for overflow, the worker of a peer that the manager knows ends,
-- whatever bytes the peer sends, in whatever chunks: nothing panics, and the peer is among the
-- handshaked ones when it is looked up there.
pub run_ends :
    (c : Context) (chunks : List (List ℕ)) (w : Handshaker)
    → c.overflow_checks ≡ false
    → CanGreet c
    → All AreBytes chunks
    → is_some (lookup c.peer.epid w.manager.peers) ≡ true
    → w.status ≡ awaiting
    → (w' : Handshaker) × (ending : Ending) × (run c chunks w ≡ some (w', ending))
      × EndsBy c.peer.epid w' ending
unfolding run
run_ends c chunks w o g b there start =
    let (bytes, e) = greets c g in
    let (w', rest, f, k) =
      wait_answers c fresh chunks (record w { network = w.network ++ (bytes ∷ []) }) o tt b
        (known there (λ d. ground arith)) in
    let (ending, h, by) = finish_answers c w' w'.status rest refl k in
    (w', ending, rw (e, f, h), by)
