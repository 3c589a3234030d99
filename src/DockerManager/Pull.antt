-- ===== src/DockerManager/Pull.antt =====
-- src/docker.rs: `pull_image_if_needed`.
use spawngate.Base.{◌||◌, Option, none, some, List, [], ◌∷◌, ◌++◌, Result, ok, err, if◌then◌else◌}
use spawngate.Base.Text.{Text, codes, contains}
use spawngate.Config.{PullPolicy, if_not_present, always, never}
use spawngate.DockerManager.Client.{DockerError, PullEvent, progress, failed, Client}

pull_error : Text → DockerError → Text
unfolding contains
pull_error image e =
    if contains (codes "manifest unknown") e.message || contains (codes "not found") e.message
    then codes "Image '"
      ++ (image ++ codes "' not found in registry. Check the image name and tag are correct.")
    else if contains (codes "unauthorized") e.message || contains (codes "authentication") e.message
    then codes "Authentication required to pull '"
      ++ (image ++ codes "'. Run 'docker login' first or check your credentials.")
    else if contains (codes "timeout") e.message || contains (codes "connection") e.message
    then codes "Network error pulling '"
      ++ (image
          ++ (codes "': "
              ++ (e.message ++ codes ". Check your internet connection and try again.")))
    else codes "Failed to pull image '" ++ (image ++ (codes "': " ++ e.message))

newer : Option Text → Option Text → Option Text
newer none last = last
newer (some error) last = some error

-- The loop over the stream, of the last error that it reported so far.
unfoldable pub pull_events : Text → Option Text → List PullEvent → Result Text (Unit {0})
unfolding pull_error newer
pull_events image none [] = ok tt
pull_events image (some error) [] =
    err (codes "Failed to pull image '" ++ (image ++ (codes "': " ++ error)))
pull_events image last (progress status error ∷ events) =
    pull_events image (newer error last) events
pull_events image last (failed e ∷ events) = err (pull_error image e)

module _ {D : Type 0} (client : Client D) where
  unfoldable pub pull_image : Text → D → D × Result Text (Unit {0})
  unfolding pull_events
  pull_image image d =
      let (d', events) = client.create_image image d in (d', pull_events image none events)

  unfoldable pub pull_image_if_needed : Text → PullPolicy → D → D × Result Text (Unit {0})
  unfolding pull_image
  pull_image_if_needed image always d = pull_image image d
  pull_image_if_needed image never d = if client.inspect_image image d then (d, ok tt) else (
    d,
    err (
        codes "Image '"
        ++ (image
            ++ (codes
                  "' not found locally and pull_policy is 'never'. Pull the image manually with 'docker pull "
                ++ (image ++ codes "' or change pull_policy.")))),
  )
  pull_image_if_needed image if_not_present d =
      if client.inspect_image image d then (d, ok tt) else pull_image image d
