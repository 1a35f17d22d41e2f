-- ===== src/Control.antt =====
-- CMU15-213/06-machine-control: the ways to write a loop, a conditional and a switch.
pub mod Pcount
pub mod Branches
