-- ===== src/Scanner/ImagePinning.antt =====
-- internal/scanner/image_pinning.go: ImagePinningScanner.
use aotanami.Remediation.Model.{Finding}
use aotanami.Scanner.Pod.{all_containers, high, medium, pod_finding, Pod, Container}
use aotanami.Prelude.{
  has_suffix, true, after_last, not, false, ◌++◌, when, if◌then◌else◌, gather, contains, codes,
  List, Bool, Text, utf8, quote,
}

abbrev pub image_vulnerability : Text
image_vulnerability = codes "image-vulnerability"

abbrev pub uses_latest_tag : Container → Pod → Finding
uses_latest_tag container pod =
    pod_finding image_vulnerability high
      (utf8 "Container " ++ quote container.name ++ utf8 " uses :latest tag")
      (utf8 "Image "
        ++ quote container.image
        ++ utf8
            " uses the :latest tag (or no tag). This is unreliable because the underlying image can change without notice.")
      (utf8 "Pin the image to a specific version tag (e.g., :v1.2.3) or a digest (sha256:...).") pod

abbrev pub is_not_pinned : Container → Pod → Finding
is_not_pinned container pod =
    pod_finding image_vulnerability medium
      (utf8 "Container " ++ quote container.name ++ utf8 " image not pinned by digest")
      (utf8 "Image "
        ++ quote container.image
        ++ utf8
            " is not pinned by digest (sha256:...). Tags are mutable — the same tag can point to different images over time.")
      (utf8 "Pin the image by digest for immutable deployments (e.g., image@sha256:abc123...).") pod

-- isDigestPinned
unfoldable pub is_digest_pinned : Text → Bool
is_digest_pinned image = contains image (codes "@sha256:")

-- isLatestTag
unfoldable pub is_latest_tag : Text → Bool
is_latest_tag image =
    if contains image (codes "@sha256:")
    then false
    else if not (contains (after_last b'/' image) (codes ":"))
    then true
    else has_suffix image (codes ":latest")

-- The body of the loop over the containers.
abbrev pub check_container : Pod → Container → List Finding
check_container pod c =
    when (is_latest_tag c.image) (uses_latest_tag c pod)
    ++ when (not (is_digest_pinned c.image)) (is_not_pinned c pod)

abbrev pub checks : Pod → List Finding
checks pod = gather (check_container pod) (all_containers pod)

-- Scan
unfoldable pub scan : List Pod → List Finding
unfolding is_latest_tag is_digest_pinned
scan pods = gather checks pods
