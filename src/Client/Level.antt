-- ===== src/Client/Level.antt =====
-- character_gain_exp of src/character.c and client_gain_exp of src/channel/client.c: experience and
-- the levels that it brings. `rand` gives the result of each call of `rand()`, and `skill` the level
-- of a skill of the character, as the hash set of its skills finds it.
pub mod Table
pub mod Gain
pub mod Kept
pub mod Warriors
pub mod Total
use syrup.Base.{
  ℕ, zero, suc, ◌+◌, ◌-◌, ◌*◌, ◌/◌, ◌%◌, bit_or, Bool, true, false, ◌&&◌, ◌||◌, ◌==◌, ltb, leb,
  if◌then◌else◌, Option, none, some, List, [], ◌∷◌, get_elem?, length,
}
use syrup.Base.Int.{ℤ, pos, negsuc, sub_ℕ, ◌+ℤ◌, ◌-ℤ◌, ltb_ℤ}
use syrup.Character.{
  Character, i32_bits, to_i16, to_i32, character_set_ap, character_set_max_hp, character_set_hp,
  character_set_max_mp, character_set_mp, character_get_effective_hp, character_get_effective_mp,
  character_get_effective_int,
}
use syrup.Job.{job_type, job_is_a}
use syrup.Packet.{Packet}
use syrup.Packet.StatChange.{stat_change_packet}
use syrup.Packet.Notice.{exp_gain_packet, exp_gain_in_chat_packet}
use syrup.Packet.Player.{show_foreign_effect_packet}
use syrup.Client.{Client, write}

-- `EXP_TABLE`: what each level takes, from the first.
unfoldable pub exp_table : List ℕ
exp_table =
    15 ∷ 34 ∷ 57 ∷ 92 ∷ 135 ∷ 372 ∷ 560 ∷ 840 ∷ 1144 ∷ 1242 ∷ 1573 ∷ 2144 ∷ 2800 ∷ 3640 ∷ 4700
    ∷ 5893 ∷ 7360 ∷ 9144 ∷ 11120 ∷ 13477 ∷ 16268 ∷ 19320 ∷ 22880 ∷ 27008 ∷ 31477 ∷ 36600 ∷ 42444
    ∷ 48720 ∷ 55813 ∷ 63800 ∷ 86784 ∷ 98208 ∷ 110932 ∷ 124432 ∷ 139372 ∷ 155865 ∷ 173280 ∷ 192400
    ∷ 213345 ∷ 235372 ∷ 259392 ∷ 285532 ∷ 312928 ∷ 342624 ∷ 374760 ∷ 408336 ∷ 445544 ∷ 483532
    ∷ 524160 ∷ 567772 ∷ 598886 ∷ 631704 ∷ 666321 ∷ 702836 ∷ 741351 ∷ 781976 ∷ 824828 ∷ 870028
    ∷ 917625 ∷ 967995 ∷ 1021041 ∷ 1076994 ∷ 1136013 ∷ 1198266 ∷ 1263930 ∷ 1333194 ∷ 1406252
    ∷ 1483314 ∷ 1564600 ∷ 1650340 ∷ 1740778 ∷ 1836173 ∷ 1936794 ∷ 2042930 ∷ 2154882 ∷ 2272970
    ∷ 2397528 ∷ 2528912 ∷ 2667496 ∷ 2813674 ∷ 2967863 ∷ 3130502 ∷ 3302053 ∷ 3483005 ∷ 3673873
    ∷ 3875201 ∷ 4087562 ∷ 4311559 ∷ 4547832 ∷ 4797053 ∷ 5059931 ∷ 5337215 ∷ 5629694 ∷ 5938202
    ∷ 6263614 ∷ 6606860 ∷ 6968915 ∷ 7350811 ∷ 7753635 ∷ 8178534 ∷ 8626718 ∷ 9099462 ∷ 9598112
    ∷ 10124088 ∷ 10678888 ∷ 11264090 ∷ 11881362 ∷ 12532461 ∷ 13219239 ∷ 13943653 ∷ 14707765
    ∷ 15513750 ∷ 16363902 ∷ 17260644 ∷ 18206527 ∷ 19204245 ∷ 20256637 ∷ 21366700 ∷ 22537594
    ∷ 23772654 ∷ 25075395 ∷ 26449526 ∷ 27898960 ∷ 29427822 ∷ 31040466 ∷ 32741483 ∷ 34535716
    ∷ 36428273 ∷ 38424542 ∷ 40530206 ∷ 42751262 ∷ 45094030 ∷ 47565183 ∷ 50171755 ∷ 52921167
    ∷ 55821246 ∷ 58880250 ∷ 62106888 ∷ 65510344 ∷ 69100311 ∷ 72887008 ∷ 76881216 ∷ 81094306
    ∷ 85594273 ∷ 90225770 ∷ 95170142 ∷ 100385466 ∷ 105886589 ∷ 111689174 ∷ 117809740 ∷ 124265714
    ∷ 131075474 ∷ 138258410 ∷ 145834970 ∷ 153826726 ∷ 162256430 ∷ 171148082 ∷ 180526997 ∷ 190419876
    ∷ 200854885 ∷ 211861732 ∷ 223471711 ∷ 223471711 ∷ 248635353 ∷ 262260570 ∷ 276632449 ∷ 291791906
    ∷ 307782102 ∷ 324648562 ∷ 342439302 ∷ 361204976 ∷ 380999008 ∷ 401877754 ∷ 423900654 ∷ 447130410
    ∷ 471633156 ∷ 497478653 ∷ 524740482 ∷ 553496261 ∷ 583827855 ∷ 615821622 ∷ 649568646 ∷ 685165008
    ∷ 722712050 ∷ 762316670 ∷ 804091623 ∷ 848155844 ∷ 894634784 ∷ 943660770 ∷ 995373379 ∷ 1049919840
    ∷ 1107455447 ∷ 1168144006 ∷ 1232158297 ∷ 1299680571 ∷ 1370903066 ∷ 1446028554 ∷ 1525246918
    ∷ 1608855764 ∷ 1697021059 ∷ []

-- The answer is negative where no level is reached. An index out of the table is `none`.
unfoldable pub character_gain_exp : Character → ℤ → Option (ℤ × Character)
character_gain_exp chr exp =
    if chr.level == 0 then none else elim (get_elem? exp_table (chr.level - 1)) [
      | none ↦ none
      | some needed ↦
          let remaining = to_i32 (pos needed -ℤ chr.exp) in
          let after =
            if ltb_ℤ exp remaining
            then record chr { exp = to_i32 (chr.exp +ℤ exp) }
            else record chr { exp = pos 0; level = (chr.level + 1) % 256 } in
          some (to_i32 (exp -ℤ remaining), after)
    ]

-- The jobs without a class.
abbrev pub is_novice : ℕ → Bool
is_novice job = job == 0 || job == 1000 || job == 2000

-- The character, the flags of its stats, and the number of calls of `rand()`.
pub record Growth : Type 0 where
  pub chr : Character
  pub stats : ℕ
  pub rolls : ℕ

-- The ability points of a level.
unfoldable pub level_ap : Character → ℕ
level_ap chr =
    if job_type chr.job == 1
    then if ltb 10 chr.level
      then if leb chr.level 17 then 7 else if ltb chr.level 77 then 6 else 5
      else 5
    else 5

-- The points that a level brings: a novice's are spent at once up to the tenth.
unfoldable pub gain_points : Growth → Growth
gain_points g =
    let chr = g.chr in
    let trained = if is_novice chr.job then g else record g {
      chr = record chr { sp = to_i16 (chr.sp +ℤ pos 3) };
      stats = bit_or g.stats 0x8000;
    } in
    if is_novice chr.job && leb chr.level 10
    then if leb chr.level 5
      then record g {
        chr = record chr { str = to_i16 (chr.str +ℤ pos 5) };
        stats = bit_or g.stats 0x40;
      }
      else record g {
        chr = record chr { str = to_i16 (chr.str +ℤ pos 4); dex = to_i16 (chr.dex +ℤ pos 1) };
        stats = bit_or g.stats 0xC0;
      }
    else record trained {
      chr = character_set_ap trained.chr (to_i16 (trained.chr.ap +ℤ pos (level_ap chr)));
      stats = bit_or trained.stats 0x4000;
    }

-- A sum with the maximal points, through the setter's `int16_t`.
abbrev pub more_hp : Character → ℤ → Character
more_hp chr amount = character_set_max_hp chr (to_i16 (chr.max_hp +ℤ amount))

abbrev pub more_mp : Character → ℤ → Character
more_mp chr amount = character_set_max_mp chr (to_i16 (chr.max_mp +ℤ amount))

-- `/` of `int`, which rounds to zero.
abbrev pub quotient : ℤ → ℕ → ℤ
quotient (pos n) d = pos (n / d)
quotient (negsuc n) d = sub_ℕ 0 (suc n / d)

-- What the intelligence adds, and the points filled up.
unfoldable pub fill_up : Growth → Growth
fill_up g =
    let divisor = if job_is_a g.chr.job 200 || job_is_a g.chr.job 1200 then 20 else 10 in
    let wise = more_mp g.chr (quotient (character_get_effective_int g.chr) divisor) in
    let healed = character_set_hp wise (character_get_effective_hp wise) in
    let whole = character_set_mp healed (character_get_effective_mp healed) in
    record g {
      chr = whole;
      stats = bit_or (bit_or (bit_or (bit_or g.stats 0x800) 0x2000) 0x400) 0x1000;
    }

-- A client in the loop, with the calls of `rand()` and what its room was sent.
pub record Gaining : Type 0 where
  pub client : Client
  pub rolls : ℕ
  pub room : List Packet

-- How the loop stops: with the experience given out, with a read of an entry that the table does not
-- have, or with no fuel left.
pub data LevelRun : Type 0 where
  settled outside_table unfinished : Gaining → LevelRun

-- What a level sends. The effect names the id of the character.
unfoldable pub announce : (id : ℕ) → Gaining → Growth → Gaining
announce id s g = record {
  client =
      write (record s.client { character = g.chr; stats = g.stats })
        (stat_change_packet true 0x10 (λ i. g.chr.level));
  rolls = g.rolls;
  room = show_foreign_effect_packet id 0 ∷ s.room;
}

module _ (rand : ℕ → ℕ) (skill : ℕ → Option ℕ) where
  -- Both maxima grow by a random amount from a base.
  abbrev pub roll : (hp_range hp_base mp_range mp_base : ℕ) → Growth → Growth
  roll hp_range hp_base mp_range mp_base g = record g {
    chr =
        more_mp (more_hp g.chr (pos (rand g.rolls % hp_range + hp_base)))
          (pos (rand (g.rolls + 1) % mp_range + mp_base));
    rolls = g.rolls + 2;
  }

  -- The skill that raises a magician's growth.
  abbrev pub skilled : ℕ → Growth → Growth
  skilled id g = elim (skill id) [
    | none ↦ g
    | some level ↦ record g { chr = more_mp g.chr (pos (level * 2)) }
  ]

  -- The growth of the maxima by the job.
  unfoldable pub grow_maxima : Growth → Growth
  grow_maxima g =
      let job = g.chr.job in
      if is_novice job
      then roll 5 12 3 10 g
      else if job_is_a job 110 || job_is_a job 1100
      then roll 5 24 3 4 g
      else if job_is_a job 200 || job_is_a job 1200
      then if job_is_a job 200
        then skilled 2000001 (roll 5 10 3 22 g)
        else skilled 12000000 (roll 5 10 3 22 g)
      else if job_is_a job 300 || job_is_a job 400 || job_is_a job 1300 || job_is_a job 1400
      then roll 5 20 3 14 g
      else if job_is_a job 500 || job_is_a job 1500
      then roll 7 22 6 18 g
      else if job_is_a job 2100
      then roll 5 44 5 4 g
      else g

  unfoldable pub level_up : Growth → Growth
  level_up g = fill_up (grow_maxima (gain_points g))

  -- The loop, on fuel.
  unfoldable pub gain_levels : (fuel : ℕ) (id : ℕ) → ℤ → Gaining → LevelRun
  gain_levels zero id exp s = unfinished s
  gain_levels (suc fuel) id exp s = elim (character_gain_exp s.client.character exp) [
    | none ↦ outside_table s
    | some (negsuc n, chr) ↦ settled (record s { client = record s.client { character = chr } })
    | some (pos left, chr) ↦
        gain_levels fuel id (pos left)
          (announce id s (level_up (record { chr = chr; stats = s.client.stats; rolls = s.rolls })))
  ]

  -- Each round reads another entry of the table, so that there are as many rounds as entries.
  unfoldable pub client_gain_exp : (id : ℕ) → Client → ℤ → (reward : Bool) → LevelRun
  client_gain_exp id client exp reward =
      let packet =
        if reward
        then exp_gain_in_chat_packet (i32_bits exp) 0 0 true
        else exp_gain_packet (i32_bits exp) 0 0 true in
      let told = write client packet in
      gain_levels (length exp_table + 1) id exp (record {
        client = record told { stats = bit_or told.stats 0x10000 };
        rolls = 0;
        room = [];
      })
