-- ===== src/Api/Names.antt =====
-- Device names of src/unvme.c: a session prints the numbers that unvme_openq has read.
use sxaurora_unvme.Base.{◌/◌, ◌%◌, ◌^◌, ◌<◌, ◌≡◌, ltb, true, bit_and, arith, refl, ◌∙◌}
use sxaurora_unvme.Base.Bits.{bit_and-byte}
use sxaurora_unvme.Session.Limits.{shift_right_16, device_name}
use sxaurora_unvme.Api.{PciName, pci_of}

-- The PCI number that unvme_openq makes of a name with a bus below 0x8000 and a device and a
-- function below 256 is printed as that name.
pub device_name-pci_of :
    (n : PciName)
    → n.b < 2 ^ 15
    → n.d < 2 ^ 8
    → n.f < 2 ^ 8
    → device_name (pci_of n) ≡ record { bus = n.b; slot = n.d; func = n.f }
unfolding device_name pci_of shift_right_16
device_name-pci_of n hb hd hf =
    let bits = pci_of n % 2 ^ 32 in
    let plus : ltb bits (2 ^ 31) ≡ true = ground (arith, hb, hd, hf) in
    let bus : bits / 2 ^ 16 ≡ n.b = omega arith in
    let slot : bit_and (bits / 2 ^ 8) 0xff ≡ n.d = bit_and-byte (bits / 2 ^ 8) ∙ omega arith in
    let func : bit_and bits 0xff ≡ n.f = bit_and-byte bits ∙ omega arith in
    rw (plus, bus, slot, func) refl
