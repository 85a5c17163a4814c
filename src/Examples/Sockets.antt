-- ===== src/Examples/Sockets.antt =====
-- A passive socket of src/lcommunf.c with one connection that is announced and not accepted.
use coutil.Prelude.{ℕ, ◌+◌, ◌≡◌, refl, false, Option, none, some, arith, ◌==◌, ◌*◌, if◌then◌else◌}
use coutil.Listen.{
  Passive, stream, failed, listen_accept, onconnection, picklistenedconn, k_acceptstream,
}
use coutil.Listen.Counts.{IsCounted, accept, happen, happen-IsCounted}
use coutil.Listen.Accepts.{listen_accept-given, error_announced}

abbrev uv_accept : ℕ → Option ℕ
uv_accept n = if n == 0 then some 11 else none

accepts : (n : ℕ) → uv_accept (n + 1) ≡ none
accepts n = ground arith

abbrev listening : ℕ → Passive
listening n = record {
  flags = 4 * (n + 1) + 2;
  udhdl = record {
    handle_closed = false;
    started = false;
    waiting = false;
    saved = false;
    nactive = 0;
    in_callback = false;
  };
  ref = false;
  announced = n;
}

listening-IsCounted : (n : ℕ) → IsCounted 0 2 (listening n)
listening-IsCounted n = ground arith

accepted : listen_accept uv_accept none (listening 1) ≡ some (stream, listening 0)
unfolding listen_accept picklistenedconn k_acceptstream
accepted = refl

happen-IsCounted_example :
    (p' : Passive) × (happen uv_accept (accept none) (listening 1) ≡ some p') × IsCounted 0 2 p'
happen-IsCounted_example =
    happen-IsCounted uv_accept accepts 0 2 (accept none) (listening 1) (listening-IsCounted 1) refl

listen_accept-given_example :
    (p' : Passive) × (listen_accept uv_accept none (listening 1) ≡ some (stream, p'))
    × (p'.announced ≡ 0)
    × (p'.flags ≡ 2 + 4 * (p'.announced + 1))
    × (p'.udhdl.waiting ≡ false)
listen_accept-given_example =
    listen_accept-given uv_accept accepts 0 2 none (listening 1) (listening-IsCounted 1) refl refl

error_announced_example :
    (p' : Passive) × (onconnection uv_accept (some 24) none (listening 0) ≡ some (none, p'))
    × (listen_accept uv_accept none p' ≡ some (failed 11, listening 0))
error_announced_example =
    error_announced uv_accept 0 2 24 11 (listening 0) (listening-IsCounted 0) refl refl refl refl
