-- ===== src/Validators/Networks.antt =====
-- The field validators of api/gem_api/models/clusters.py for secondary networks and for CIDR blocks.
pub mod Accepted
use gem_gdc_emulation_enviro.Prelude.{Text, is_empty, if◌then◌else◌, is_some}
use gem_gdc_emulation_enviro.Prelude.Strings.{strip}
use gem_gdc_emulation_enviro.Regex.{matches}
use gem_gdc_emulation_enviro.Validators.Patterns.{network_name_regex}
use gem_gdc_emulation_enviro.Validators.Errors.{
  bad_cidr, bad_address, empty_network_name, bad_network_name, Result, ok, err,
}
use gem_gdc_emulation_enviro.Validators.Addresses.{parse_address, parse_network}

-- SecondaryNetworkConfig.validate_name
unfoldable pub validate_network_name : Text → Result Text
unfolding strip matches
validate_network_name val =
    let v = strip val in
    if is_empty v
    then err empty_network_name
    else if matches network_name_regex v
    then ok v
    else err (bad_network_name v)

-- SecondaryNetworkConfig.validate_cidr, and ClusterCreateRequest.validate_network_cidr, which is the
-- same.
unfoldable pub validate_cidr : Text → Result Text
unfolding strip parse_network
validate_cidr val =
    let v = strip val in if is_some (parse_network v) then ok v else err (bad_cidr v)

-- SecondaryNetworkConfig.validate_gateway
unfoldable pub validate_gateway : Text → Result Text
unfolding strip parse_address
validate_gateway val =
    let v = strip val in if is_some (parse_address v) then ok v else err (bad_address v)
