-- ===== src/Jni/Transfer/Race.antt =====
-- `read` when another reader takes the entry that it has seen.
use libshmipc.Base.{ℕ, suc, ◌^◌, ◌<◌, ◌≡◌, refl, List, [], ◌∷◌, some, ne→==}
use libshmipc.Base.Word.{ℤ}
use libshmipc.Common.{IpcEntry, nothing, allocated}
use libshmipc.Utils.{Timespec}
use libshmipc.Buffer.State.{IpcBuffer}
use libshmipc.Buffer.Layout.{Holds}
use libshmipc.Channel.State.{ChannelShm}
use libshmipc.Channel.TryRead.{Turn}
use libshmipc.Channel.Read.{Wait, at_time}
use libshmipc.Channel.Read.Refine.{read_ok_without_entry}
use libshmipc.Jni.State.{Native, get_channel, fault, to_array}
use libshmipc.Jni.Transfer.{read, one_second, answer_read}
use libshmipc.Jni.Transfer.Arrays.{unset_payload_faults}
use libshmipc.Jni.Transfer.Refine.{Connected}

-- When another reader takes the entry between the peek of the method `read` and the `_try_read` that
-- follows, the method makes an array of what stands in its local variable `entry`, which nobody has
-- set, of an object that points to the channel. If that has a size between 1 and 2^31 - 1 and a payload
-- of NULL, it reads through NULL. The channel has no payload then.
pub java_read_uninitialised :
    {k : ℕ} {xs : List ℕ} {q : List (List ℕ)} (n : Native) (fuel : ℕ) (w : Wait) (t : Turn)
    (turns : List Turn) (start : Timespec) (waits : List Wait) (field : ℤ) (header : ℕ)
    (b : IpcBuffer) (entry : IpcEntry)
    → Connected field header b n
    → w.turns ≡ t ∷ turns
    → Holds k (xs ∷ q) (w.before_peek n.shm).buffer
    → ((c' : ChannelShm) → Holds k (xs ∷ q) c'.buffer → Holds k [] (t.before_peek c').buffer)
    → (c' : ChannelShm) × (read (suc (suc fuel)) (w ∷ waits) (at_time start) entry allocated field n
        ≡ some (to_array allocated entry c'.buffer.region, record n { shm = c' }))
      × (entry.payload ≡ nothing
          → 0 < entry.size
          → entry.size < 2 ^ 31
          → to_array allocated entry c'.buffer.region ≡ fault)
      × Holds k [] c'.buffer
unfolding read answer_read
java_read_uninitialised n fuel w t turns start waits field header b entry there first h taken =
    let (e, c', done, held) =
      read_ok_without_entry n.shm fuel w t turns start one_second waits header b entry first refl
        refl h taken in
    (
      c',
      rw (read, ne→== (get_channel field) 0 there.not_null, there.stands, done, answer_read),
      unset_payload_faults entry c'.buffer.region,
      held,
    )
