-- ===== src/Channel/Await/Life/Fails.antt =====
-- Which calls and callbacks of a channel fail an assertion (src/lchannem.c).
use Prim.Native.String.{String}
use coutil.Prelude.{ℕ, ◌-◌, Bool, true, false, ◌&&◌, not, ◌==◌, Option, none, some, ◌∷◌, length}
use coutil.Channel.{checksyncargs}
use coutil.Channel.Swap.{Stack, canmove}
use coutil.Channel.Await.{System}
use coutil.Channel.Await.Life.{Event, await, sync, meet, synced, cancel, close, collect}

abbrev pub is_none {ℓ} : {A : Type ℓ} → Option A → Bool
is_none none = true
is_none (some _) = false

-- A call that should wait and cannot: memory is short, or `uv_async_init` fails with an error other
-- than 2.
abbrev pub cannot_wait : (room : Bool) → (async : Option ℕ) → Bool
cannot_wait false async = true
cannot_wait true none = false
cannot_wait true (some err) = not (err == 2)

abbrev pub fails : Event → System → Bool
fails (await option values room async c rest) s =
    let l = c ∷ rest in
    s.channel.named
    && not s.channel.handle
    && not (is_none (checksyncargs option (length l - 2) (canmove l (length l - 2))))
    && is_none values
    && cannot_wait room async
fails (sync option values c rest) s = false
fails (meet c rest) s = false
fails (synced l) s = false
fails cancel s = false
fails (close l) s = false
fails (collect l) s = false
