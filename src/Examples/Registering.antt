-- ===== src/Examples/Registering.antt =====
-- The registrations on test data (modulex.go: RegisterModule, RegisterService, RegisterHealthCheck).
use modulex.Prelude.{◌≡◌, refl, none, [], ◌==◌, if◌then◌else◌, trim_space}
use modulex.Manager.{new_manager, register_service, resolve_service}
use modulex.Manager.Registry.{
  IsRegistered, resolve_service-register_service, new_manager-IsRegistered,
}
use modulex.Examples.{connection, empty_manager, configured}

empty_manager-IsRegistered : IsRegistered empty_manager
unfolding new_manager
empty_manager-IsRegistered = (new_manager-IsRegistered [] empty_manager refl).0

resolve_service-register_service_example :
    resolve_service "db " (register_service " db" connection configured).0 ≡ (
      if trim_space " db" == trim_space "db "
      then (connection, none)
      else resolve_service "db " configured)
unfolding register_service trim_space
resolve_service-register_service_example =
    resolve_service-register_service " db" "db " connection configured refl
