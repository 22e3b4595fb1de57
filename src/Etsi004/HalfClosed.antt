-- ===== src/Etsi004/HalfClosed.antt =====
-- The two closes of a stream, and a pending stream that its opener closes (etsi004.ts).
use pqc_qkd_hybrid_network.Base.{◌≡◌, String, true, false, some, [], arith, eq_iff}
use pqc_qkd_hybrid_network.Base.Dict.{lookup, insert, lookup-insert_self}
use pqc_qkd_hybrid_network.Etsi004.Stream.{
  Side, side_a, side_b, other, at_side, Qos, pending_peer, established, closing, closed, is_state,
  Stream, t5, t16, t17, Env,
}
use pqc_qkd_hybrid_network.Etsi004.Open.{join_stream}
use pqc_qkd_hybrid_network.Etsi004.Km.{Km, open_connect, close_stream, close}

close_known :
    (m : Km) (side : Side) (k : String) (s : Stream)
    → lookup k m ≡ some s
    → close m side k ≡ (insert k (close_stream s side).0 m, (close_stream s side).1)
unfolding close
close_known m side k s e = rw (e, close)

close_stream_first :
    (s : Stream) (side : Side)
    → is_state s.state closed ≡ false
    → at_side (other side) s.is_closed ≡ false
    → ((close_stream s side).1.transition ≡ t16)
      × ((close_stream s side).0.state ≡ closing)
      × ((close_stream s side).0.chunks ≡ s.chunks)
      × (at_side side (close_stream s side).0.is_closed ≡ true)
unfolding close_stream
close_stream_first s side_a live apart = ground arith
close_stream_first s side_b live apart = ground arith

close_stream_second :
    (s : Stream) (side : Side)
    → s.state ≡ closing
    → at_side side s.is_closed ≡ true
    → ((close_stream s (other side)).1.transition ≡ t17)
      × ((close_stream s (other side)).0.state ≡ closed)
      × ((close_stream s (other side)).0.chunks ≡ [])
unfolding close_stream
close_stream_second s side_a st c = ground arith
close_stream_second s side_b st c = ground arith

open_known :
    (env : Env) (m : Km) (side : Side) (source destination : String) (qos : Qos) (k : String)
    (s : Stream)
    → lookup k m ≡ some s
    → open_connect env m side source destination qos (some k) ≡ (
      insert k (join_stream s side source destination k).0 m,
      (join_stream s side source destination k).1,
    )
unfolding open_connect
open_known env m side source destination qos k s e = rw (e, open_connect)

-- Closing a stream that neither side has closed: the first side's `close` takes T16 and leaves it
-- closing with its chunks, and the other side's takes T17, closes it and drops the chunks.
pub close_both :
    (m : Km) (side : Side) (k : String) (s : Stream)
    → lookup k m ≡ some s
    → is_state s.state closed ≡ false
    → at_side (other side) s.is_closed ≡ false
    → let (m', r) = close m side k in
      let (m'', r') = close m' (other side) k in
      (r.transition ≡ t16)
      × (r'.transition ≡ t17)
      × ((t : Stream) × (lookup k m' ≡ some t) × (t.state ≡ closing) × (t.chunks ≡ s.chunks))
      × ((t : Stream) × (lookup k m'' ≡ some t) × (t.state ≡ closed) × (t.chunks ≡ []))
close_both m side k s there live apart =
    let s1 = (close_stream s side).0 in
    let s2 = (close_stream s1 (other side)).0 in
    let m1 = insert k s1 m in
    let (tr, st, cs, own) = close_stream_first s side live apart in
    let (tr', st', cs') = close_stream_second s1 side st own in
    rw (close_known m side k s there, close_known m1 (other side) k s1 (lookup-insert_self k s1 m))
      (tr, tr', (s1, lookup-insert_self k s1 m, st, cs), (s2, lookup-insert_self k s2 m1, st', cs'))

join_stream_closing :
    (s : Stream) (side : Side) (source destination k : String)
    → s.state ≡ pending_peer
    → at_side (other side) s.is_opened ≡ false
    → at_side (other side) s.is_closed ≡ false
    → s.apps.source ≡ source
    → s.apps.destination ≡ destination
    → let s1 = (close_stream s side).0 in
      let (s2, r) = join_stream s1 (other side) source destination k in
      (r.transition ≡ t5) × (s2.state ≡ established) × (at_side side s2.is_closed ≡ true)
unfolding join_stream close_stream
join_stream_closing s side_a source destination k pending unopened unclosed a b =
    ground (arith, eq_iff s.apps.source source, eq_iff s.apps.destination destination)
join_stream_closing s side_b source destination k pending unopened unclosed a b =
    ground (arith, eq_iff s.apps.source source, eq_iff s.apps.destination destination)

-- What the table's T5 does not say: when the opener of a pending stream has closed it already, the
-- peer's `openConnect` still takes T5 and establishes the stream, with the opener's side closed.
pub join_half_closed :
    (m : Km) (env : Env) (side : Side) (k source destination : String) (qos : Qos) (s : Stream)
    → lookup k m ≡ some s
    → s.state ≡ pending_peer
    → at_side (other side) s.is_opened ≡ false
    → at_side (other side) s.is_closed ≡ false
    → s.apps.source ≡ source
    → s.apps.destination ≡ destination
    → let m' = (close m side k).0 in
      let (m'', r) = open_connect env m' (other side) source destination qos (some k) in
      (r.transition ≡ t5)
      × ((t : Stream) × (lookup k m'' ≡ some t)
          × (t.state ≡ established)
          × (at_side side t.is_closed ≡ true))
join_half_closed m env side k source destination qos s there pending unopened unclosed a b =
    let s1 = (close_stream s side).0 in
    let s2 = (join_stream s1 (other side) source destination k).0 in
    let m1 = insert k s1 m in
    let (tr, st, own) =
      join_stream_closing s side source destination k pending unopened unclosed a b in
    rw
      (
        close_known m side k s there,
        open_known env m1 (other side) source destination qos k s1 (lookup-insert_self k s1 m),
      )
      (tr, (s2, lookup-insert_self k s2 m1, st, own))
