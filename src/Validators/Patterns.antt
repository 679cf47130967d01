-- ===== src/Validators/Patterns.antt =====
-- The compiled patterns of api/gem_api/models/validators.py.
use gem_gdc_emulation_enviro.Prelude.{codes, ℕ, Bool, ◌&&◌, ◌||◌, leb, ◌==◌}
use gem_gdc_emulation_enviro.Regex.{Regex, seq, alt, star, one_of, plus, opt, char, literal}

abbrev pub lower_case : ℕ → Bool
lower_case c = leb b'a' c && leb c b'z'

abbrev pub upper_case : ℕ → Bool
upper_case c = leb b'A' c && leb c b'Z'

abbrev pub digit : ℕ → Bool
digit c = leb b'0' c && leb c b'9'

-- [a-z0-9]
abbrev pub lower_alnum : ℕ → Bool
lower_alnum c = lower_case c || digit c

-- [a-z0-9-]
abbrev pub lower_alnum_dash : ℕ → Bool
lower_alnum_dash c = lower_alnum c || c == b'-'

-- [a-zA-Z0-9-]
abbrev pub alnum_dash : ℕ → Bool
alnum_dash c = lower_alnum_dash c || upper_case c

-- GCP_REGION_REGEX
abbrev pub gcp_region_regex : Regex
gcp_region_regex = seq (plus (one_of lower_case)) (seq (char b'-') (plus (one_of lower_alnum)))

-- GCP_ZONE_REGEX: its first two words and the dash between them are read as GCP_REGION_REGEX.
abbrev pub gcp_zone_regex : Regex
gcp_zone_regex = seq gcp_region_regex (seq (char b'-') (one_of lower_case))

-- GCP_PROJECT_ID_REGEX
abbrev pub gcp_project_id_regex : Regex
gcp_project_id_regex =
    seq (one_of lower_case) (seq (star (one_of lower_alnum_dash)) (one_of lower_alnum))

-- GCE_NAME_REGEX
abbrev pub gce_name_regex : Regex
gce_name_regex =
    seq (one_of lower_case) (opt (seq (star (one_of lower_alnum_dash)) (one_of lower_alnum)))

-- STORAGE_SIZE_REGEX
abbrev pub storage_size_regex : Regex
storage_size_regex = seq (one_of (λ c. leb b'1' c && leb c b'9')) (
    seq (star (one_of digit)) (
      alt (literal (codes "GB"))
        (alt (literal (codes "TB")) (alt (literal (codes "GiB")) (literal (codes "TiB"))))))

-- EMAIL_REGEX
abbrev pub email_regex : Regex
email_regex = seq (plus (one_of (λ c. alnum_dash c || (c == b'_' || (c == b'.' || c == b'+'))))) (
    seq (char b'@') (
      seq (plus (one_of alnum_dash))
        (seq (char b'.') (plus (one_of (λ c. alnum_dash c || c == b'.'))))))

-- The pattern of SecondaryNetworkConfig.validate_name in clusters.py
abbrev pub network_name_regex : Regex
network_name_regex =
    seq (one_of lower_alnum) (opt (seq (star (one_of lower_alnum_dash)) (one_of lower_alnum)))
