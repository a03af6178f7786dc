-- ===== src/Config/Android.antt =====
-- core/andler-core/src/android_profile.rs: the data of an Android guest.
use andler.Base.{Bool, Option, Text}

pub data AndroidVersion : Type 0 where
  android11 android13 : AndroidVersion

pub data ArmTranslator : Type 0 where
  no_translator libndk libhoudini : ArmTranslator

pub data AndroidBootMode : Type 0 where
  android_boot linux_boot : AndroidBootMode

pub record BaseImagePin : Type 0 where
  pub id : Text
  pub sha256 : Text

pub record AndroidProfile : Type 0 where
  pub android_version : AndroidVersion
  pub gapps : Bool
  pub microg : Bool
  pub arm_translator : ArmTranslator
  pub boot_mode : AndroidBootMode
  pub base_image_pin : Option BaseImagePin
