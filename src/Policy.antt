-- ===== src/Policy.antt =====
-- master/internal/policy/policy.go: a campaign's governance settings. The price multiplier, a
-- float64, is read by the prices of Tools/Services only.
mod Tests
use layforge.Prelude.{
  String, str_eq, ◌≡◌, refl, ◌↔◌, ◌⊎◌, Bool, true, false, ◌&&◌, arith, if◌then◌else◌, ℤ, pos, ltb_ℤ,
  eqb_ℤ, eqb_ℤ_iff, ◌≤ℤ◌,
}

-- `pvp_unspecified` is the empty string and stands for every unknown one.
pub data PvpPolicy : Type 0 where
  pvp_unspecified pve_only pvp_allowed : PvpPolicy

-- `PvPPolicy.IsValid`
unfoldable pub pvp_is_valid : PvpPolicy → Bool
pvp_is_valid pve_only = true
pvp_is_valid pvp_allowed = true
pvp_is_valid pvp_unspecified = false

pub data SharedKnowledge : Type 0 where
  knowledge_unspecified strict party_omniscient : SharedKnowledge

pub record CampaignPolicy : Type 0 where
  pub pvp_policy : PvpPolicy
  pub maturity_tier_prompt : String
  pub image_maturity_tier_prompt : String
  pub shared_knowledge : SharedKnowledge
  pub min_level : ℤ
  pub max_level : ℤ

-- `Default`
unfoldable pub default_policy : CampaignPolicy
default_policy = record {
  pvp_policy = pve_only;
  maturity_tier_prompt = "";
  image_maturity_tier_prompt = "";
  shared_knowledge = knowledge_unspecified;
  min_level = pos 0;
  max_level = pos 0;
}

-- `LevelInRange`
unfoldable pub level_in_range : CampaignPolicy → ℤ → Bool
level_in_range p level =
    if eqb_ℤ level (pos 0)
    then true
    else if ltb_ℤ (pos 0) p.min_level && ltb_ℤ level p.min_level
    then false
    else if ltb_ℤ (pos 0) p.max_level && ltb_ℤ p.max_level level
    then false
    else true

-- `EffectiveSharedKnowledge`
unfoldable pub effective_shared_knowledge : CampaignPolicy → SharedKnowledge
effective_shared_knowledge p = elim p.shared_knowledge [
  | knowledge_unspecified ↦ party_omniscient
  | strict ↦ strict
  | party_omniscient ↦ party_omniscient
]

-- `EffectiveImageMaturityTierPrompt`
unfoldable pub effective_image_prompt : CampaignPolicy → String
effective_image_prompt p =
    if str_eq p.image_maturity_tier_prompt ""
    then p.maturity_tier_prompt
    else p.image_maturity_tier_prompt

-- A level is in range exactly if it is 0, or respects each bound that is set; a bound of 0 or less
-- is not set.
pub level_in_range_iff :
    (p : CampaignPolicy) (level : ℤ)
    → (level_in_range p level ≡ true) ↔ (
        (level ≡ pos 0)
        ⊎ (((p.min_level ≤ℤ pos 0) ⊎ (p.min_level ≤ℤ level))
            × ((p.max_level ≤ℤ pos 0) ⊎ (level ≤ℤ p.max_level))))
unfolding level_in_range
level_in_range_iff p level = ground (arith, eqb_ℤ_iff level (pos 0))
