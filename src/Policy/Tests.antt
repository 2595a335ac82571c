-- ===== src/Policy/Tests.antt =====
-- The level range of a campaign from level 3 up.
use layforge.Prelude.{◌≡◌, refl, ◌↔◌, ◌⊎◌, true, false, pos, ◌≤ℤ◌}
use layforge.Policy.{
  CampaignPolicy, pve_only, knowledge_unspecified, level_in_range, level_in_range_iff,
}

abbrev veterans : CampaignPolicy
veterans = record {
  pvp_policy = pve_only;
  maturity_tier_prompt = "";
  image_maturity_tier_prompt = "";
  shared_knowledge = knowledge_unspecified;
  min_level = pos 3;
  max_level = pos 0;
}

novice : level_in_range veterans (pos 2) ≡ false
unfolding level_in_range
novice = refl

level_in_range_iff_example : (level_in_range veterans (pos 5) ≡ true) ↔ (
    (pos 5 ≡ pos 0)
    ⊎ (((pos 3 ≤ℤ pos 0) ⊎ (pos 3 ≤ℤ pos 5)) × ((pos 0 ≤ℤ pos 0) ⊎ (pos 5 ≤ℤ pos 0))))
level_in_range_iff_example = level_in_range_iff veterans (pos 5)
