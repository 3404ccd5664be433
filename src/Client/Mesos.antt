-- ===== src/Client/Mesos.antt =====
-- Gains and losses of mesos.
use syrup.Base.{◌≡◌, refl, ◌∙◌, Bool, true, false, arith}
use syrup.Base.Int.{ℤ, pos, negsuc, ◌+ℤ◌, ◌-ℤ◌, ◌≤ℤ◌}
use syrup.Character.{Character, to_i32, character_set_meso}
use syrup.Character.Stats.{clamp}
use syrup.Client.{Client, int32_max, meso_change, client_gain_meso}

abbrev pub mesos_of : Client → ℤ
mesos_of client = client.character.mesos

gain_meso-mesos :
    (client : Client) (mesos : ℤ) (pickup reward : Bool)
    → mesos_of (client_gain_meso client mesos pickup reward)
      ≡ (character_set_meso client.character
          (to_i32 (mesos_of client +ℤ meso_change (mesos_of client) mesos))).mesos
unfolding client_gain_meso
gain_meso-mesos client mesos true reward = refl
gain_meso-mesos client mesos false true = refl
gain_meso-mesos client mesos false false = refl

change-clamp :
    (chr : Character) (now mesos : ℤ)
    → pos 0 ≤ℤ now
    → now ≤ℤ int32_max
    → pos 0 ≤ℤ mesos +ℤ now
    → mesos ≤ℤ int32_max
    → (character_set_meso chr (to_i32 (now +ℤ meso_change now mesos))).mesos
      ≡ clamp (pos 0) int32_max (now +ℤ mesos)
unfolding character_set_meso meso_change ◌+ℤ◌ ◌-ℤ◌
change-clamp chr now mesos n m s t = ground arith

-- A gain, or a loss of no more than there is, leaves the sum, held at the largest `int32_t`.
pub gain_meso-clamp :
    (client : Client) (mesos : ℤ) (pickup reward : Bool)
    → pos 0 ≤ℤ mesos_of client
    → mesos_of client ≤ℤ int32_max
    → pos 0 ≤ℤ mesos +ℤ mesos_of client
    → mesos ≤ℤ int32_max
    → mesos_of (client_gain_meso client mesos pickup reward)
      ≡ clamp (pos 0) int32_max (mesos_of client +ℤ mesos)
gain_meso-clamp client mesos pickup reward n m s t =
    gain_meso-mesos client mesos pickup reward
    ∙ change-clamp client.character (mesos_of client) mesos n m s t

overdrawn :
    (chr : Character) (now mesos : ℤ)
    → pos 0 ≤ℤ now
    → now ≤ℤ pos 1073741823
    → mesos +ℤ now ≤ℤ negsuc 0
    → (character_set_meso chr (to_i32 (now +ℤ meso_change now mesos))).mesos ≡ now +ℤ now
unfolding character_set_meso meso_change ◌+ℤ◌ ◌-ℤ◌
overdrawn chr now mesos n m s = ground arith

-- A loss of more than there is doubles what there is, where the double is still an `int32_t`.
pub gain_meso-overdrawn :
    (client : Client) (mesos : ℤ) (pickup reward : Bool)
    → pos 0 ≤ℤ mesos_of client
    → mesos_of client ≤ℤ pos 1073741823
    → mesos +ℤ mesos_of client ≤ℤ negsuc 0
    → mesos_of (client_gain_meso client mesos pickup reward) ≡ mesos_of client +ℤ mesos_of client
gain_meso-overdrawn client mesos pickup reward n m s =
    gain_meso-mesos client mesos pickup reward
    ∙ overdrawn client.character (mesos_of client) mesos n m s
