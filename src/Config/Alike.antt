-- ===== src/Config/Alike.antt =====
-- broker/config.c on states that differ in the order of the dictionary.
use vmnet_broker.Base.{CString}
use vmnet_broker.Machine.{Outcomes}
use vmnet_broker.Machine.Alike.{Respects, ends, option-Alike, result-Alike, alike_rules}
use vmnet_broker.Config.{
  NetworkConfig, find_network_config, create_vmnet_configuration, create_network_configuration,
}

create_vmnet_configuration-Alike :
    (out : Outcomes) (config : NetworkConfig) → Respects (create_vmnet_configuration out config)
unfolding create_vmnet_configuration
create_vmnet_configuration-Alike out config s s' a =
    option-Alike (out.configuration_create config.mode) _ _ _ _ (ends a)
      λ c. search alike_rules depth 9

pub create_configuration-Alike :
    (out : Outcomes) (name : CString) → Respects (create_network_configuration out name)
unfolding create_network_configuration
create_configuration-Alike out name s s' a =
    result-Alike (find_network_config name) _ _ _ _ (λ e. ends a)
      λ config. create_vmnet_configuration-Alike out config s s' a
