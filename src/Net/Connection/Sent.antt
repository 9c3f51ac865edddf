-- ===== src/Net/Connection/Sent.antt =====
-- A run of `send` and `handleWrite` on an open connection.
use cpptool_box.Base.{
  ℕ, ◌+◌, ◌^◌, ◌<◌, ◌≡◌, refl, sym, ap, ◌∙◌, List, [], ◌∷◌, ◌++◌, arith, length, length-append, pos,
  Result, ok, ◌>>=◌,
}
use mathlib.Core.List.{append_assoc, append-nil}
use cpptool_box.ByteBuf.Data.Window.{contents}
use cpptool_box.Net.Connection.{Session, send, handle_write}
use cpptool_box.Net.Connection.Queue.{IsOpen, transmitted, send_lem, handle_write_lem}

regroup : (a b c d : List ℕ) → (a ++ (b ++ c)) ++ d ≡ (a ++ b) ++ (c ++ d)
regroup a b c d = rw (append_assoc a (b ++ c) d, append_assoc b c d, append_assoc a b (c ++ d)) refl

requeued :
    (x a b y c : List ℕ) (d : List ℕ) → x ≡ a → y ≡ b ++ c → (x ++ y) ++ d ≡ (a ++ b) ++ (c ++ d)
requeued x a b y c d e f = ap (λ z. (z ++ y) ++ d) e ∙ ap (λ z. (a ++ z) ++ d) f ∙ regroup a b c d

emptied : (x a y d : List ℕ) → x ≡ a → y ≡ [] → (x ++ y) ++ d ≡ a ++ d
emptied x a y d e f =
    ap (λ z. (z ++ y) ++ d) e ∙ ap (λ z. (a ++ z) ++ d) f ∙ ap (λ z. z ++ d) (append-nil a)

pub data Op : Type 0 where
  sends : List ℕ → Op
  writes : Op

-- The calls on a connection.
unfoldable pub run : Session → List Op → Result Session
run s [] = ok s
run s (sends t ∷ ops) = send s t (pos (length t)) >>= λ u. run u ops
run s (writes ∷ ops) = handle_write s >>= λ u. run u ops

unfoldable pub sent : List Op → List ℕ
sent [] = []
sent (sends t ∷ ops) = t ++ sent ops
sent (writes ∷ ops) = sent ops

-- On an open connection no call of `send` and `handleWrite` fails, and what the socket was given
-- together with what is still queued is what was sent, in order.
pub run-sent :
    (s : Session) (ops : List Op)
    → IsOpen s
    → length s.conn.write_buffer.origin_data + length (sent ops) < 2 ^ 31
    → (u : Session) × (run s ops ≡ ok u)
      × IsOpen u
      × (transmitted u.effects ++ contents u.conn.write_buffer
          ≡ (transmitted s.effects ++ contents s.conn.write_buffer) ++ sent ops)
unfolding run sent
run-sent s [] o h =
    (s, refl, o, sym (append-nil (transmitted s.effects ++ contents s.conn.write_buffer)))
run-sent s (sends t ∷ ops) o h =
    let l = length-append t (sent ops) in
    let (u, e, p, f, c, n) = send_lem s t o (omega (arith, l)) in
    let (v, g, r, k) = run-sent u ops p (omega (arith, l, n)) in
    (
      v,
      rw e g,
      r,
      k
          ∙ requeued (transmitted u.effects) (transmitted s.effects) (contents s.conn.write_buffer)
              (contents u.conn.write_buffer) t (sent ops) (ap transmitted f) c,
    )
run-sent s (writes ∷ ops) o h =
    let (u, e, p, f, c, n) = handle_write_lem s o in
    let (v, g, r, k) = run-sent u ops p (omega (arith, n)) in
    (
      v,
      rw e g,
      r,
      k
          ∙ emptied (transmitted u.effects) (transmitted s.effects ++ contents s.conn.write_buffer)
              (contents u.conn.write_buffer) (sent ops) f c,
    )
