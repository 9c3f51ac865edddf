-- ===== src/Net/Client/States.antt =====
-- What a lost connection does to a client.
use cpptool_box.Base.{
  ℕ, ◌≡◌, ap, ◌∙◌, [], ◌∷◌, ◌++◌, true, ◌&&◌, none, ℤ, if◌then◌else◌, ok, map_ok, refl,
}
use cpptool_box.Event.Poller.Valid.{IsValid}
use cpptool_box.Event.Poller.Fresh.{Unused}
use cpptool_box.Net.Connector
use cpptool_box.Net.Connector.{Attempt, opened, Dial, re_start}
use cpptool_box.Net.Connector.Channel.{IsDialing, start-IsDialing}
use cpptool_box.Net.Client.{
  TcpClient, connected, closes, is_connected, call_close, redial, lost, remove_connection,
}

-- A lost connection with reconnection enabled: the connector dials the new descriptor, the
-- `disconnect` of the old connection is queued, the pointer is null, and the close callback gets null.
pub remove_connection-dials :
    (c : TcpClient) (e id : ℕ) (fd : ℤ)
    → c.state ≡ connected
    → c.recon_enable ≡ true
    → c.close_cb ≡ true
    → IsValid c.dial.poller
    → Unused c.dial.poller id
    → c.dial.poller.fd_event_maps fd ≡ none
    → (d : TcpClient) × (remove_connection c e (opened fd id) ≡ ok d)
      × IsDialing d.dial id fd
      × (d.connection ≡ none)
      × (d.disconnects ≡ c.disconnects ++ (e ∷ []))
      × (d.effects ≡ c.effects ++ (closes none ∷ []))
unfolding remove_connection re_start
remove_connection-dials c e id fd s r b v u n =
    let t : Dial = record c.dial {
      connector = record c.dial.connector { state = Connector.disconnected; connect = true };
    } in
    let reconnects : (c.recon_enable && is_connected c.state) ≡ true = rw (r, s) refl in
    let (k, g, _, _, h) = start-IsDialing t fd id refl v u n in
    (
      record c {
        connection = none;
        disconnects = c.disconnects ++ (e ∷ []);
        dial = k;
        effects = c.effects ++ (closes none ∷ []);
      },
      ap (λ x. map_ok call_close (redial x (opened fd id) (lost c e))) reconnects
          ∙ ap
              (λ x.
                map_ok call_close
                  (map_ok (λ k. record (lost c e) { dial = k }) (map_ok (λ (b, e). e) x)))
              g
          ∙ ap
              (λ x. ok (
                if x
                then record c {
                  connection = none;
                  disconnects = c.disconnects ++ (e ∷ []);
                  dial = k;
                  effects = c.effects ++ (closes none ∷ []);
                }
                else record (lost c e) { dial = k }))
              b,
      h,
      refl,
      refl,
      refl,
    )
