-- ===== src/Runtime/Status/Laws.antt =====
-- Which reports of rkt are converted.
use rktlet.Base.{◌≡◌, refl, ℕ, String, ok}
use rktlet.Runtime.AppName.{build_container_id, parse_app_name}
use rktlet.Runtime.Status.{container_status_of, to_container_status}
use rktlet.Runtime.Types.{ContainerStatus, RktApp}

-- An app whose name is an attempt and a container's name is converted, and its ID is that of the
-- container in the pod.
pub to_container_status-ok :
    (uuid : String) (app : RktApp)
    → (attempt : ℕ) × (name : String) × (parse_app_name app.name ≡ ok (attempt, name))
    → (status : ContainerStatus) × (to_container_status uuid app ≡ ok status)
      × (status.id ≡ build_container_id uuid app.name)
unfolding to_container_status
to_container_status-ok uuid app (attempt, name, parsed) =
    (container_status_of uuid app (attempt, name), rw parsed refl, refl)
