-- ===== src/Tools/Fights.antt =====
-- master/internal/server/dm_tools.go: attacks, grapples, shoves and spells stay within their campaign.
use layforge.Prelude.{String, str_eq, not, Option, none, some, if◌then◌else◌, ℤ}
use layforge.Tools.Services.{
  Services, Character, Actor, Struck, Strike, attack, grapple, shove, AttackKind, ShoveEffect,
}
use layforge.Tools.Actions.{
  Code, invalid_arguments, pvp_blocked, attack_failed, grapple_failed, shove_failed,
  cast_spell_failed, Answer, told, Tool, give, refuse, call, ◌>>=◌, parsed, save_updated_character,
  character_may_act,
}
use layforge.Tools.Strikes.{
  hit_blocked, save_target, settle, strike_at, dm_attack, dm_grapple, dm_shove, parse_shove_effect,
  cast_alone, cast_at, dm_cast_spell,
}
use layforge.Tools.Scoped.{Loaded}
use layforge.Tools.Isolated.{
  Stays, bind-Stays, found-Stays, give-Stays, refuse-Stays, if-Stays, call-Stays, parsed-Stays,
  save-Stays, character_may_act-Stays,
}

module _ (v : Services) (k : String) (start : v.Store) where
  abbrev Still : {A : Type 0} → Tool v A → Type 0
  Still = Stays v k start

  abbrev At : Character → Type 0
  At = Loaded v k start

  -- One step and the rest.
  then_Still :
      {A B : Type 0} (m : Tool v A) (f : A → Tool v B)
      → Still m
      → ((a : A) → Still (f a))
      → Still (m >>= f)
  then_Still = bind-Stays v k start

  save_target-Stays : (d : Character) (o : Option (Actor v.Data)) → At d → Still (save_target v d o)
  unfolding save_target
  save_target-Stays d none m = give-Stays v k start tt
  save_target-Stays d (some a) m = save-Stays v k start d a m

  settle-Stays :
      (sender : String) (c d : Character) (r : Struck v.Data)
      → At c
      → At d
      → Still (settle v k sender c d r)
  unfolding settle
  settle-Stays sender c d r l m =
      then_Still (save_updated_character v c r.actor) _ (save-Stays v k start c r.actor l) (λ u.
        if-Stays v k start (hit_blocked v k sender r.hits d) (refuse pvp_blocked)
          (save_target v d r.target >>= λ u'. give (told r.result_message))
          (refuse-Stays v k start pvp_blocked)
          (then_Still (save_target v d r.target) _ (save_target-Stays d r.target m)
            (λ u'. give-Stays v k start (told r.result_message))))

  strike_at-Stays :
      (sender id target_id : String) (request : Strike) (failed : Code)
      → Still (strike_at v k sender id target_id request failed)
  unfolding strike_at
  strike_at-Stays sender id target_id request failed = found-Stays v k start id _ (λ c l.
      then_Still (character_may_act v c) _ (character_may_act-Stays v k start c) (λ u.
        then_Still (parsed v c) _ (parsed-Stays v k start c) (λ a.
          found-Stays v k start target_id _ (λ d m.
            then_Still (parsed v d) _ (parsed-Stays v k start d) (λ b.
              then_Still (call v (v.strike k request a b (v.grid_context k c.id d.id))) _
                (call-Stays v k start (v.strike k request a b (v.grid_context k c.id d.id)))
                (λ r.
                  if-Stays v k start (not r.success) (refuse failed) (settle v k sender c d r)
                    (refuse-Stays v k start failed) (settle-Stays sender c d r l m)))))))

  pub dm_shove-Stays :
      (sender id target_id effect : String) → Still (dm_shove v k sender id target_id effect)
  unfolding dm_shove
  dm_shove-Stays sender id target_id effect =
      if-Stays v k start (str_eq target_id "") (refuse invalid_arguments)
        (run (parse_shove_effect v effect)) (refuse-Stays v k start invalid_arguments)
        (go (parse_shove_effect v effect))
    where
      run : Option ShoveEffect → Tool v Answer
      run o = elim o [
        | none ↦ refuse invalid_arguments
        | some e ↦ strike_at v k sender id target_id (shove e) shove_failed
      ]

      go : (o : Option ShoveEffect) → Still (run o)
      go none = refuse-Stays v k start invalid_arguments
      go (some e) = strike_at-Stays sender id target_id (shove e) shove_failed

  aimed :
      (sender id target_id : String) (request : Strike) (failed : Code)
      → Still (
          if str_eq target_id ""
          then refuse invalid_arguments
          else strike_at v k sender id target_id request failed)
  aimed sender id target_id request failed =
      if-Stays v k start (str_eq target_id "") (refuse invalid_arguments)
        (strike_at v k sender id target_id request failed)
        (refuse-Stays v k start invalid_arguments)
        (strike_at-Stays sender id target_id request failed)

  cast_alone-Stays :
      (c : Character) (a : Actor v.Data) (spell : String) (slot : ℤ)
      → At c
      → Still (cast_alone v k c a spell slot)
  unfolding cast_alone
  cast_alone-Stays c a spell slot l =
      then_Still (call v (v.cast_spell k spell slot a none none)) _
        (call-Stays v k start (v.cast_spell k spell slot a none none))
        (λ r.
          if-Stays v k start (not r.success) (refuse cast_spell_failed)
            (save_updated_character v c r.actor >>= λ u. give (told r.result_message))
            (refuse-Stays v k start cast_spell_failed)
            (then_Still (save_updated_character v c r.actor) _ (save-Stays v k start c r.actor l)
              (λ u. give-Stays v k start (told r.result_message))))

  cast_at-Stays :
      (sender : String) (c : Character) (a : Actor v.Data) (target_id spell : String) (slot : ℤ)
      → At c
      → Still (cast_at v k sender c a target_id spell slot)
  unfolding cast_at
  cast_at-Stays sender c a target_id spell slot l = found-Stays v k start target_id _ (λ d m.
      then_Still (parsed v d) _ (parsed-Stays v k start d) (λ b.
        then_Still (call v (v.cast_spell k spell slot a (some b) (v.grid_context k c.id d.id))) _
          (call-Stays v k start (v.cast_spell k spell slot a (some b) (v.grid_context k c.id d.id)))
          (λ r.
            if-Stays v k start (not r.success) (refuse cast_spell_failed) (settle v k sender c d r)
              (refuse-Stays v k start cast_spell_failed) (settle-Stays sender c d r l m))))

  pub dm_cast_spell-Stays :
      (sender id spell target_id : String) (slot : ℤ)
      → Still (dm_cast_spell v k sender id spell target_id slot)
  unfolding dm_cast_spell
  dm_cast_spell-Stays sender id spell target_id slot =
      if-Stays v k start (str_eq spell "") (refuse invalid_arguments) _
        (refuse-Stays v k start invalid_arguments)
        (found-Stays v k start id _ (λ c l.
          then_Still (character_may_act v c) _ (character_may_act-Stays v k start c) (λ u.
            then_Still (parsed v c) _ (parsed-Stays v k start c) (λ a.
              if-Stays v k start (str_eq target_id "") (cast_alone v k c a spell slot)
                (cast_at v k sender c a target_id spell slot) (cast_alone-Stays c a spell slot l)
                (cast_at-Stays sender c a target_id spell slot l)))))

  pub dm_attack-Stays :
      (sender id target_id : String) (kind : AttackKind)
      → Still (dm_attack v k sender id target_id kind)
  unfolding dm_attack
  dm_attack-Stays sender id target_id kind = aimed sender id target_id (attack kind) attack_failed

  pub dm_grapple-Stays : (sender id target_id : String) → Still (dm_grapple v k sender id target_id)
  unfolding dm_grapple
  dm_grapple-Stays sender id target_id = aimed sender id target_id grapple grapple_failed
