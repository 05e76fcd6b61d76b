-- ===== src/NetMonitor/Ping.antt =====
-- `send_ping_once` of 3_net_monitor.c.
use yocto_meta_hsiao.Base.{
  ℕ, ◌≡◌, ◌↔◌, [], ◌∷◌, true, false, pos, is_neg, leb_ℤ, ltb_ℤ, if◌then◌else◌, arith,
}
use yocto_meta_hsiao.NetMonitor.{PingAnswers, socket, close, is_reply, send_ping_once}

-- Every step of the ping succeeds.
abbrev pub Arrives : PingAnswers → Type 0
Arrives a =
    (is_neg a.fd ≡ false)
    × (a.is_address ≡ true)
    × (is_neg a.sent ≡ false)
    × (leb_ℤ a.polled (pos 0) ≡ false)
    × (ltb_ℤ a.n (pos 28) ≡ false)

-- A ping succeeds exactly if each call does and the answer is an echo reply with its identifier and
-- sequence number. Its result is never positive, and the socket is closed once if it was opened.
ping-ends :
    (a : PingAnswers) (seq : ℕ)
    → let (ret, calls) = send_ping_once a seq in
      ((ret ≡ pos 0) ↔ (Arrives a × (is_reply a.recvbuf a.pid seq ≡ true)))
      × (leb_ℤ ret (pos 0) ≡ true)
      × (calls ≡ (if is_neg a.fd then [] else socket ∷ close ∷ []))
unfolding send_ping_once
ping-ends a seq = (
  (λ e. ground (arith, e), λ e. ground (arith, e.0.0, e.0.1, e.0.2, e.0.3, e.0.4, e.1)),
  ground arith,
  ground arith,
)
