-- ===== src/UsbClass/Descriptor.antt =====
-- The descriptors of modules/usb_class/src/custom_class.c. The constants of Zephyr's USB headers are a
-- parameter; the values that the USB 2.0 specification gives them are named beside it.
use zephyr_development.Prelude.{
  ℕ, ◌+◌, ◌%◌, ◌*◌, ◌/◌, ◌≡◌, refl, Option, none, some, List, [], ◌∷◌, ◌==◌, if◌then◌else◌,
}
use zephyr_development.UsbClass.{fs_mps, ep1out, ep1in}

-- The names of Zephyr's headers that the descriptors use, with the sizes of their structs.
pub record Ch9 : Type 0 where
  pub sizeof_usb_if_descriptor : ℕ
  pub sizeof_usb_ep_descriptor : ℕ
  pub usb_desc_interface : ℕ
  pub usb_desc_endpoint : ℕ
  pub usb_bcc_vendor : ℕ
  pub usb_ep_dir_out : ℕ
  pub usb_ep_dir_in : ℕ
  pub usb_ep_type_bulk : ℕ

-- Chapter 9.6 of the specification.
abbrev pub usb2 : Ch9
usb2 = record {
  sizeof_usb_if_descriptor = 9;
  sizeof_usb_ep_descriptor = 7;
  usb_desc_interface = 4;
  usb_desc_endpoint = 5;
  usb_bcc_vendor = 0xff;
  usb_ep_dir_out = 0x00;
  usb_ep_dir_in = 0x80;
  usb_ep_type_bulk = 2;
}

pub data Speed : Type 0 where
  usbd_speed_fs : Speed
  usbd_speed_hs : Speed
  usbd_speed_ss : Speed

-- A descriptor by the fields of its struct. The packet size is its two bytes in memory.
pub data Desc : Type 0 where
  usb_if_descriptor :
      (b_length b_descriptor_type b_interface_number b_alternate_setting b_num_endpoints : ℕ)
      (b_interface_class b_interface_sub_class b_interface_protocol i_interface : ℕ)
      → Desc
  usb_ep_descriptor :
      (b_length b_descriptor_type b_endpoint_address bm_attributes : ℕ) (w_max_packet_size : ℕ × ℕ)
      (b_interval : ℕ)
      → Desc
  usb_desc_header : (b_length b_descriptor_type : ℕ) → Desc

abbrev pub num_endpoints : ℕ
num_endpoints = 2

abbrev pub sys_cpu_to_le16 : ℕ → ℕ × ℕ
sys_cpu_to_le16 n = (n % 256, n / 256 % 256)

-- `n | 1`
abbrev pub or_one : ℕ → ℕ
or_one n = if n % 2 == 1 then n else n + 1

module _ (c : Ch9) where
  abbrev endpoint : ℕ → Desc
  endpoint address =
      usb_ep_descriptor c.sizeof_usb_ep_descriptor c.usb_desc_endpoint address c.usb_ep_type_bulk
        (sys_cpu_to_le16 fs_mps) 0

  unfoldable pub custom_class_fs_desc : List Desc
  custom_class_fs_desc =
      usb_if_descriptor c.sizeof_usb_if_descriptor c.usb_desc_interface 0 0 num_endpoints
        c.usb_bcc_vendor c.usb_bcc_vendor c.usb_bcc_vendor 0
      ∷ endpoint (or_one c.usb_ep_dir_out)
      ∷ endpoint (or_one c.usb_ep_dir_in)
      ∷ usb_desc_header 0 0
      ∷ []

  -- None for NULL.
  unfoldable pub custom_class_get_desc : Speed → Option (List Desc)
  custom_class_get_desc usbd_speed_fs = some custom_class_fs_desc
  custom_class_get_desc usbd_speed_hs = none
  custom_class_get_desc usbd_speed_ss = none

-- The address, attributes and packet size of each endpoint, as a host reads them.
abbrev endpoints : List Desc → List (ℕ × ℕ × ℕ)
endpoints [] = []
endpoints (usb_ep_descriptor l t address attributes (low, high) i ∷ ds) =
    (address, attributes, low + high * 256) ∷ endpoints ds
endpoints (usb_if_descriptor l t n a e class sub p i ∷ ds) = endpoints ds
endpoints (usb_desc_header l t ∷ ds) = endpoints ds

-- The descriptors name the two bulk endpoints that the class asks buffers for, with its packet size.
endpoints-custom_class_fs_desc :
    endpoints (custom_class_fs_desc usb2) ≡ (ep1out, 2, fs_mps) ∷ (ep1in, 2, fs_mps) ∷ []
unfolding custom_class_fs_desc
endpoints-custom_class_fs_desc = refl
